-- ===== src/Runtime/Switch/Moves.antt =====
-- crates/nix-seal-runtime/src/lib.rs, `switch_current`: however its calls fail, `current` is what it
-- was or the link to the new generation.
use nix_seal.Prelude.{
  ℕ, ◌≡◌, refl, sym, ◌∙◌, ◌⊎◌, inl, inr, true, false, Option, some, none, [], ◌∷◌, Result, ok, err,
  Bool-cases, arith,
}
use nix_seal.Prelude.Text.{Text, text_eq, text_eq_iff, text_ord, strip_prefix}
use nix_seal.Prelude.Collections.{map_get, map_insert, get-map_insert, eq_test_refl}
use nix_seal.Runtime.Error.{RuntimeError}
use nix_seal.Runtime.Generations.{Entry, directory, regular, special, symlink, generation_name}
use nix_seal.Runtime.World.{Root, World, After, call}
use nix_seal.Runtime.World.Triples.{Ends, Triple, Does, then-Triple, call-Triple}
use nix_seal.Runtime.Switch.{
  current, current_next, without, created, removed, renamed, symlink_metadata, create_link,
  remove_file, rename, sync_root, or_absent, probe, is_generation, read_link, check_link,
  check_current, clear_next, switch_current,
}

get-without :
    (k name : Text) (root : Root)
    → text_eq k name ≡ false
    → map_get k (without name root) ≡ map_get k root
unfolding map_get without text_ord
get-without k name [] h = refl
get-without k name ((j, entry) ∷ root) h = elim (Bool-cases (text_eq j name)) [
  | inl here ↦
      let at_name = (text_eq_iff j name).0 here in
      let other : text_eq j k ≡ false = elim (Bool-cases (text_eq j k)) [
        | inr apart ↦ apart
        | inl same ↦
            let at_k = (text_eq_iff j k).0 same in
            let both : text_eq k name ≡ true = (text_eq_iff k name).1 (sym at_k ∙ at_name) in
            absurd (cc)
      ] in
      rw (without, here, other) (get-without k name root h)
  | inr apart ↦ rw (without, apart) (ground (arith, get-without k name root h))
]

other_way : (k name : Text) → text_eq k name ≡ false → text_eq name k ≡ false
other_way k name h = elim (Bool-cases (text_eq name k)) [
  | inr apart ↦ apart
  | inl same ↦
      let both : text_eq k name ≡ true =
        (text_eq_iff k name).1 (sym ((text_eq_iff name k).0 same)) in
      absurd (cc)
]

insert-here :
    (k : Text) (entry : Entry) (root : Root) → map_get k (map_insert k entry root) ≡ some entry
insert-here k entry root = ground (arith, get-map_insert k k entry root, eq_test_refl k)

is_other : (k j : Text) → text_eq j k ≡ false → text_ord.eq_test k j ≡ false
unfolding text_ord
is_other k j apart = other_way j k apart

insert-other :
    (k j : Text) (entry : Entry) (root : Root)
    → text_eq j k ≡ false
    → map_get j (map_insert k entry root) ≡ map_get j root
insert-other k j entry root apart =
    ground (arith, get-map_insert k j entry root, is_other k j apart)

module _ (generation : ℕ) (start : Root) where
  abbrev new_link : Entry
  new_link = symlink (generation_name generation)

  -- Only the name for the next link may differ from the start.
  abbrev Kept : Root → Type 0
  Kept root = (k : Text) → text_eq k current_next ≡ false → map_get k root ≡ map_get k start

  abbrev Ready : Root → Type 0
  Ready root = Kept root × (map_get current_next root ≡ some new_link)

  -- `current` is the link to the generation, and other names are as at the start.
  abbrev pub Moved : Root → Type 0
  Moved root =
      ((k : Text)
        → text_eq k current_next ≡ false
        → text_eq k current ≡ false
        → map_get k root ≡ map_get k start)
      × (map_get current root ≡ some new_link)

  abbrev pub AtomicEnd : Root → Type 0
  AtomicEnd root = Kept root ⊎ Moved root

  still-Triple :
      {A : Type 0} (f : Root → Result RuntimeError (A × Root))
      → ((root : Root) → Kept root → Does Kept (λ a. Kept) AtomicEnd (f root) root)
      → Triple Kept (call f) (λ a. Kept) AtomicEnd
  still-Triple f does = call-Triple Kept (λ a. Kept) AtomicEnd f does (λ root h. inl h)

  metadata-Triple : (name : Text) → Triple Kept (symlink_metadata name) (λ a. Kept) AtomicEnd
  unfolding symlink_metadata
  metadata-Triple name = still-Triple (λ root. ok (map_get name root, root)) (λ root h. h)

  or_absent-Ends :
      (o : After (Option Entry))
      → Ends (λ a. Kept) Kept o
      → Ends (λ a. Kept) AtomicEnd (or_absent o)
  or_absent-Ends (ok entry, w) h = h
  or_absent-Ends (err e, w) h = h

  probe-Triple : (name : Text) → Triple Kept (probe name) (λ a. Kept) AtomicEnd
  unfolding symlink_metadata
  probe-Triple name w h = or_absent-Ends (symlink_metadata name w) (
      call-Triple Kept (λ a. Kept) Kept (λ root. ok (map_get name root, root)) (λ root k. k)
        (λ root k. k) w h)

  check_link-Triple : (entry : Option Entry) → Triple Kept (check_link entry) (λ a. Kept) AtomicEnd
  unfolding strip_prefix
  check_link-Triple none w h = inl h
  check_link-Triple (some directory) w h = inl h
  check_link-Triple (some regular) w h = inl h
  check_link-Triple (some special) w h = inl h
  check_link-Triple (some (symlink target)) w h = elim (Bool-cases (is_generation target)) [
    | inl good ↦ rw good h
    | inr bad ↦ rw bad (inl h)
  ]

  check_current-Triple :
      (entry : Option Entry) → Triple Kept (check_current entry) (λ a. Kept) AtomicEnd
  unfolding check_current
  check_current-Triple none w h = h
  check_current-Triple (some directory) w h = inl h
  check_current-Triple (some regular) w h = inl h
  check_current-Triple (some special) w h = inl h
  check_current-Triple (some (symlink target)) w h =
      then-Triple Kept (λ a. Kept) (λ a. Kept) AtomicEnd (read_link current) check_link
        (metadata-Triple current) check_link-Triple w h

  removed-Does :
      (entry : Option Entry) (root : Root)
      → Kept root
      → Does Kept (λ a. Kept) AtomicEnd (removed entry current_next root) root
  removed-Does none root h = inl h
  removed-Does (some directory) root h = inl h
  removed-Does (some regular) root h = λ k apart. get-without k current_next root apart ∙ h k apart
  removed-Does (some special) root h = λ k apart. get-without k current_next root apart ∙ h k apart
  removed-Does (some (symlink t)) root h =
      λ k apart. get-without k current_next root apart ∙ h k apart

  clear_next-Triple : (entry : Option Entry) → Triple Kept (clear_next entry) (λ a. Kept) AtomicEnd
  unfolding clear_next remove_file
  clear_next-Triple none w h = h
  clear_next-Triple (some directory) w h = inl h
  clear_next-Triple (some regular) w h = inl h
  clear_next-Triple (some special) w h = inl h
  clear_next-Triple (some (symlink target)) w h =
      still-Triple (λ root. removed (map_get current_next root) current_next root)
        (λ root k. removed-Does (map_get current_next root) root k) w h

  created-Does :
      (entry : Option Entry) (root : Root)
      → Kept root
      → Does Kept (λ a. Ready) AtomicEnd (created entry current_next new_link root) root
  created-Does (some entry) root h = inl h
  created-Does none root h = (
    λ k apart. insert-other current_next k new_link root apart ∙ h k apart,
    insert-here current_next new_link root,
  )

  create-Triple :
      Triple Kept (create_link (generation_name generation) current_next) (λ a. Ready) AtomicEnd
  unfolding create_link
  create-Triple =
      call-Triple Kept (λ a. Ready) AtomicEnd
        (λ root. created (map_get current_next root) current_next new_link root)
        (λ root h. created-Does (map_get current_next root) root h) (λ root h. inl h)

  after_rename :
      (root : Root) → Kept root → Moved (map_insert current new_link (without current_next root))
  after_rename root h = (
    λ k next apart.
        insert-other current k new_link (without current_next root) apart
        ∙ get-without k current_next root next
        ∙ h k next,
    insert-here current new_link (without current_next root),
  )

  renamed-Does :
      (there : Option Entry) (root : Root)
      → Kept root
      → Does Ready
          (λ a. Moved)
          AtomicEnd
          (renamed (some new_link) there current_next current root)
          root
  renamed-Does none root h = after_rename root h
  renamed-Does (some directory) root h = inl h
  renamed-Does (some regular) root h = after_rename root h
  renamed-Does (some special) root h = after_rename root h
  renamed-Does (some (symlink t)) root h = after_rename root h

  rename-Triple : Triple Ready (rename current_next current) (λ a. Moved) AtomicEnd
  unfolding rename
  rename-Triple =
      call-Triple Ready (λ a. Moved) AtomicEnd
        (λ root.
          renamed (map_get current_next root) (map_get current root) current_next current root)
        (λ root h. rw h.1 (renamed-Does (map_get current root) root h.0)) (λ root h. inl h.0)

  sync-Triple : Triple Moved sync_root (λ a. Moved) AtomicEnd
  unfolding sync_root
  sync-Triple =
      call-Triple Moved (λ a. Moved) AtomicEnd (λ root. ok (tt, root)) (λ root h. h)
        (λ root h. inr h)

  switch-Triple : Triple Kept (switch_current generation) (λ a. Moved) AtomicEnd
  unfolding switch_current
  switch-Triple =
      then-Triple Kept (λ a. Kept) (λ a. Moved) AtomicEnd (probe current) _ (probe-Triple current)
        (λ now.
          then-Triple Kept (λ a. Kept) (λ a. Moved) AtomicEnd (check_current now) _
            (check_current-Triple now)
            (λ _.
              then-Triple Kept (λ a. Kept) (λ a. Moved) AtomicEnd (probe current_next) _
                (probe-Triple current_next)
                (λ next.
                  then-Triple Kept (λ a. Kept) (λ a. Moved) AtomicEnd (clear_next next) _
                    (clear_next-Triple next)
                    (λ _.
                      then-Triple Kept (λ a. Ready) (λ a. Moved) AtomicEnd
                        (create_link (generation_name generation) current_next) _ create-Triple
                        (λ _.
                          then-Triple Ready (λ a. Moved) (λ a. Moved) AtomicEnd
                            (rename current_next current) (λ _. sync_root) rename-Triple
                            (λ _. sync-Triple))))))

-- Whichever system calls fail, a switch touches no entry of the runtime root but `current` and the
-- link that is to take its place; if it succeeds `current` is the link to the generation, and if it
-- fails `current` is either as it was or that link, and is never missing or anything else.
pub switch_current-AtomicEnd :
    (generation : ℕ) (w : World)
    → Ends
        (λ _. Moved generation w.root)
        (AtomicEnd generation w.root)
        (switch_current generation w)
switch_current-AtomicEnd generation w = switch-Triple generation w.root w (λ k apart. refl)
