-- ===== src/Runtime/Streams/Whole.antt =====
-- crates/nix-seal-runtime/src/lib.rs: a secret that is encoded piece by piece is encoded as a whole.
use nix_seal.Prelude.{
  ℕ, suc, subst, ◌+◌, ◌*◌, ◌-◌, ◌/◌, ◌%◌, ◌≤◌, ◌≡◌, refl, sym, ap, ◌∙◌, true, false, List, [], ◌∷◌,
  ◌++◌, length, length-append, take, drop, All, ltb, Result, ok, ◌>>=◌, Bool-cases, inl, inr, arith,
  >>=-same, take-drop, length-take,
}
use mathlib.Core.List.{append_assoc, append-nil}
use nix_seal.Prelude.Text.{Text}
use nix_seal.Runtime.Error.{RuntimeError}
use nix_seal.Runtime.Template.{template_write_all, max_template_output_bytes}
use nix_seal.Runtime.Template.Output.{template_write_all-Wrote}
use nix_seal.Runtime.Streams.{
  Read, bytes, interrupted, failed, encoded_size, whole_groups, write_groups, base64_loop,
  copy_base64, hex, hex_digit, copy_hex,
}

-- Two writes are one write of both texts.
template_write_all-append :
    (written s t : Text)
    → length written ≤ max_template_output_bytes
    → (template_write_all written s >>= λ next. template_write_all next t)
      ≡ template_write_all written (s ++ t)
unfolding template_write_all
template_write_all-append written s t small =
    elim (Bool-cases (ltb (max_template_output_bytes - length written) (length s))) [
      | inl over ↦
          let also : ltb (max_template_output_bytes - length written) (length (s ++ t)) ≡ true =
            ground (arith, length-append s t) in
          rw (over, also) refl
      | inr room ↦
          let same : ltb (max_template_output_bytes - length (written ++ s)) (length t)
              ≡ ltb (max_template_output_bytes - length written) (length (s ++ t)) =
            ground (arith, length-append s t, length-append written s, room, small) in
          rw (room, same, append_assoc written s t) refl
    ]

template_write_all-nothing : (written : Text) → template_write_all written [] ≡ ok written
unfolding template_write_all
template_write_all-nothing written =
    let room : ltb (max_template_output_bytes - length written) 0 ≡ false = ground arith in
    rw (room, append-nil written) refl

-- A write, and after it what amounts to another write.
then_write :
    (written s t : Text) (later : Text → Result RuntimeError Text)
    → length written ≤ max_template_output_bytes
    → ((next : Text)
        → length next ≤ max_template_output_bytes
        → later next ≡ template_write_all next t)
    → (template_write_all written s >>= later) ≡ template_write_all written (s ++ t)
then_write written s t later small same =
    >>=-same (template_write_all written s) later (λ next. template_write_all next t)
      (λ next h. same next ((template_write_all-Wrote written s next h).1 small))
    ∙ template_write_all-append written s t small

-- All that a reader gives up to its end, where none of its calls fails.
abbrev pub content : List Read → Text
content [] = []
content (bytes [] ∷ reads) = []
content (bytes (c ∷ s) ∷ reads) = (c ∷ s) ++ content reads
content (_ ∷ reads) = content reads

-- A call of the reader gives no error, and no more bytes than there is room for.
abbrev pub Fits : Read → Type 0
Fits (bytes piece) = length piece ≤ 8192
Fits interrupted = Unit
Fits failed = ⊥

hex-append : (s t : Text) → hex (s ++ t) ≡ hex s ++ hex t
unfolding hex
hex-append [] t = refl
hex-append (c ∷ s) t =
    ap (λ (r : Text). hex_digit (c / 16) ∷ hex_digit (c % 16) ∷ r) (hex-append s t)

-- A secret that is copied in hexadecimal, however its bytes come in, is the hexadecimal form of the
-- whole, written at once with its limit.
pub copy_hex-content :
    (written : Text) (reads : List Read)
    → length written ≤ max_template_output_bytes
    → All Fits reads
    → copy_hex written reads ≡ template_write_all written (hex (content reads))
unfolding copy_hex hex
copy_hex-content written [] small fits = sym (template_write_all-nothing written)
copy_hex-content written (interrupted ∷ reads) small fits =
    copy_hex-content written reads small fits.1
copy_hex-content written (failed ∷ reads) small fits = absurd fits.0
copy_hex-content written (bytes [] ∷ reads) small fits = sym (template_write_all-nothing written)
copy_hex-content written (bytes (c ∷ s) ∷ reads) small fits =
    then_write written (hex (c ∷ s)) (hex (content reads)) (λ next. copy_hex next reads) small
      (λ next bound. copy_hex-content next reads bound fits.1)
    ∙ ap (template_write_all written) (sym (hex-append (c ∷ s) (content reads)))

-- The calls of the reader give no error, and no more bytes than there is room for: the buffer has 8194
-- bytes, the first of which are the `carried` ones that did not fill a group before.
abbrev pub FitsBehind : ℕ → List Read → Type 0
FitsBehind carried [] = Unit
FitsBehind carried (bytes [] ∷ reads) = Unit
FitsBehind carried (bytes (c ∷ s) ∷ reads) =
    (carried + length (c ∷ s) ≤ 8194) × FitsBehind ((carried + length (c ∷ s)) % 3) reads
FitsBehind carried (interrupted ∷ reads) = FitsBehind carried reads
FitsBehind carried (failed ∷ reads) = ⊥

module _ (base64_encode : Text → Text) where
  -- What the code relies on of base64: a text is encoded in groups of three bytes, each to four.
  pub record Base64Laws : Type 0 where
    pub by_groups :
        (s t : Text)
        → length s % 3 ≡ 0
        → base64_encode (s ++ t) ≡ base64_encode s ++ base64_encode t
    pub size : (s : Text) → length (base64_encode s) ≡ 4 * ((length s + 2) / 3)

  module _ (laws : Base64Laws) where
    no_length : (s : Text) → length s ≡ 0 → s ≡ []
    no_length [] h = refl
    no_length (c ∷ s) h = absurd (omega (arith, h))

    encode_nothing : base64_encode [] ≡ []
    encode_nothing = no_length (base64_encode []) (omega (arith, laws.size []))

    write_groups-encode :
        (written text : Text)
        → length text ≤ 8194
        → write_groups base64_encode written text ≡ template_write_all written (base64_encode text)
    unfolding write_groups
    write_groups-encode written [] small =
        rw encode_nothing (sym (template_write_all-nothing written))
    write_groups-encode written (c ∷ s) small =
        let room : ltb encoded_size (length (base64_encode (c ∷ s))) ≡ false =
          ground (arith, laws.size (c ∷ s), small) in
        rw room refl

    rest_of_groups : (text : Text) → length (drop (whole_groups text) text) ≡ length text % 3
    rest_of_groups text = omega (
      arith,
      length-append (take (whole_groups text) text) (drop (whole_groups text) text),
      ap length (take-drop (whole_groups text) text),
      length-take (whole_groups text) text (omega arith),
    )

    base64_loop-content :
        (written carried : Text) (reads : List Read)
        → length written ≤ max_template_output_bytes
        → length carried ≤ 2
        → FitsBehind (length carried) reads
        → base64_loop base64_encode written carried reads
          ≡ template_write_all written (base64_encode (carried ++ content reads))
    unfolding base64_loop
    base64_loop-content written carried [] small short fits =
        write_groups-encode written carried (omega (arith, short))
        ∙ ap (λ (t : Text). template_write_all written (base64_encode t)) (sym (append-nil carried))
    base64_loop-content written carried (interrupted ∷ reads) small short fits =
        base64_loop-content written carried reads small short fits
    base64_loop-content written carried (failed ∷ reads) small short fits = absurd fits
    base64_loop-content written carried (bytes [] ∷ reads) small short fits =
        write_groups-encode written carried (omega (arith, short))
        ∙ ap (λ (t : Text). template_write_all written (base64_encode t)) (sym (append-nil carried))
    base64_loop-content written carried (bytes (c ∷ s) ∷ reads) small short fits =
        let whole = carried ++ c ∷ s in
        let k = whole_groups whole in
        let sized = length-take k whole (omega arith) in
        let total = length-append carried (c ∷ s) in
        let kept = rest_of_groups whole in
        let fit : length (take k whole) ≤ 8194 = omega (arith, sized, total, fits.0) in
        let left : (length carried + suc (length s)) % 3 ≡ length (drop k whole) =
          omega (arith, kept, total) in
        ap
          (λ (m : Result RuntimeError Text).
            m >>= λ next. base64_loop base64_encode next (drop k whole) reads)
          (write_groups-encode written (take k whole) fit)
        ∙ then_write written (base64_encode (take k whole))
            (base64_encode (drop k whole ++ content reads))
            (λ next. base64_loop base64_encode next (drop k whole) reads) small
            (λ next bound.
              base64_loop-content next (drop k whole) reads bound (omega (arith, kept))
                (subst (λ (n : ℕ). FitsBehind n reads) left fits.1))
        ∙ ap (template_write_all written) (
            sym
              (laws.by_groups (take k whole) (drop k whole ++ content reads) (omega (arith, sized)))
            ∙ ap base64_encode (
                sym (append_assoc (take k whole) (drop k whole) (content reads))
                ∙ ap (λ (t : Text). t ++ content reads) (take-drop k whole)
                ∙ append_assoc carried (c ∷ s) (content reads)))

    -- A secret that is copied in base64, however its bytes come into the room that the buffer has, is
    -- the base64 form of the whole up to the reader's end, written at once with its limit: the bytes
    -- that do not fill a group are carried to the next piece, and padding is written at the end only.
    pub copy_base64-content :
        (written : Text) (reads : List Read)
        → length written ≤ max_template_output_bytes
        → FitsBehind 0 reads
        → copy_base64 base64_encode written reads
          ≡ template_write_all written (base64_encode (content reads))
    unfolding copy_base64
    copy_base64-content written reads small fits =
        base64_loop-content written [] reads small (omega arith) fits
