-- ===== src/Core/Path.antt =====
-- What the program calls of `std::path::Path` on Unix: the components of a path. A repeated or a
-- trailing slash and a `.` that is not the first component leave no component.
use nix_seal.Prelude.{Bool, true, false, ◌||◌, List, [], ◌∷◌, is_empty, if◌then◌else◌}
use nix_seal.Prelude.Text.{Text, codes, text_eq, starts_with, split}

pub data Component : Type 0 where
  root_dir cur_dir parent_dir : Component
  normal : Text → Component

unfoldable pub body : List Text → List Component
unfolding text_eq
body [] = []
body (p ∷ ps) =
    let rest = body ps in
    if is_empty p || text_eq p (codes ".")
    then rest
    else if text_eq p (codes "..")
    then parent_dir ∷ rest
    else normal p ∷ rest

unfoldable pub leading : List Text → List Component
unfolding body
leading [] = []
leading (p ∷ ps) = if text_eq p (codes ".") then cur_dir ∷ body ps else body (p ∷ ps)

unfoldable pub is_absolute : Text → Bool
unfolding starts_with
is_absolute value = starts_with value (codes "/")

unfoldable pub components : Text → List Component
unfolding is_absolute body leading split
components value =
    if is_absolute value then root_dir ∷ body (split b'/' value) else leading (split b'/' value)

-- `path.file_name().is_some()`: the last component is a normal one.
unfoldable pub has_file_name : List Component → Bool
has_file_name [] = false
has_file_name (normal p ∷ []) = true
has_file_name (c ∷ []) = false
has_file_name (c ∷ d ∷ cs) = has_file_name (d ∷ cs)

-- `path == Path::new("/")`.
abbrev pub is_root : List Component → Bool
is_root (root_dir ∷ []) = true
is_root _ = false

abbrev pub is_cur_or_parent : Component → Bool
is_cur_or_parent cur_dir = true
is_cur_or_parent parent_dir = true
is_cur_or_parent _ = false

abbrev pub is_root_or_normal : Component → Bool
is_root_or_normal root_dir = true
is_root_or_normal (normal p) = true
is_root_or_normal _ = false
