-- ===== src/Profile/Manifest.antt =====
-- profile/manifest.rs: the extraction of captured files. Paths are their components; those of a text
-- are what `Path::components` documents on Unix: a leading slash, a leading dot, and the parts
-- between slashes, of which empty ones and later dots are left out. Directories are left out.
mod Beneath
mod Examples
use browserserve.Common.{
  ℕ, suc, Bool, true, false, Option, none, some, List, [], ◌∷◌, ◌++◌, take, is_empty, ◌==◌, ◌||◌,
  if◌then◌else◌,
}
use browserserve.Common.Result.{Result, ok, err}
use browserserve.Common.Text.{Bytes, codes, equal}

pub data Component : Type 0 where
  root_dir cur_dir parent_dir : Component
  normal : Bytes → Component

-- The parts between slashes.
abbrev pub onto_part : ℕ → List Bytes → List Bytes
onto_part c [] = (c ∷ []) ∷ []
onto_part c (p ∷ ps) = (c ∷ p) ∷ ps

unfoldable pub split_slashes : Bytes → List Bytes
split_slashes [] = [] ∷ []
split_slashes (c ∷ cs) = if c == b'/' then [] ∷ split_slashes cs else onto_part c (split_slashes cs)

abbrev pub component_of : Bytes → Component
component_of part = if equal part (codes "..") then parent_dir else normal part

-- The parts after the first.
unfoldable pub later_components : List Bytes → List Component
later_components [] = []
later_components (part ∷ parts) =
    if is_empty part || equal part (codes ".")
    then later_components parts
    else component_of part ∷ later_components parts

abbrev pub first_component : Bytes → List Component
first_component part =
    if is_empty part
    then root_dir ∷ []
    else if equal part (codes ".")
    then cur_dir ∷ []
    else component_of part ∷ []

abbrev pub all_components : List Bytes → List Component
all_components [] = []
all_components (part ∷ parts) = first_component part ++ later_components parts

unfoldable pub components : Bytes → List Component
components [] = []
components (c ∷ cs) = all_components (split_slashes (c ∷ cs))

abbrev pub is_absolute : Bytes → Bool
is_absolute [] = false
is_absolute (c ∷ cs) = c == b'/'

abbrev pub FilePath : Type 0
FilePath = List Bytes

-- `out`, once every component is pushed.
unfoldable pub push_all : FilePath → List Component → Option FilePath
push_all out [] = some out
push_all out (normal part ∷ cs) = push_all (out ++ (part ∷ [])) cs
push_all out (root_dir ∷ cs) = none
push_all out (cur_dir ∷ cs) = none
push_all out (parent_dir ∷ cs) = none

abbrev pub if_pushed : FilePath → List Component → Option FilePath
if_pushed root [] = none
if_pushed root (c ∷ cs) = push_all root (c ∷ cs)

unfoldable pub safe_join : FilePath → Bytes → Option FilePath
safe_join root rel = if is_absolute rel then none else if_pushed root (components rel)

pub record ManifestEntry : Type 0 where
  pub path : Bytes
  pub bytes : Bytes

pub data ExtractError : Type 0 where
  unsafe_path : Bytes → ExtractError
  io_failed : ExtractError

-- The outcome, and the files written, the latest last.
abbrev pub Extracted : Type 0
Extracted = Result ExtractError ℕ × List (FilePath × Bytes)

-- What the system does with a new file: all its bytes, some of them and an error, or only an error.
pub data FileAnswer : Type 0 where
  stores : FileAnswer
  breaks_off : ℕ → FileAnswer
  refuses : FileAnswer

-- A file that was created stays, also when its writing fails.
abbrev pub on_answer :
    List (FilePath × Bytes) → FilePath → Bytes → FileAnswer → Bool × List (FilePath × Bytes)
on_answer written target bytes stores = (true, written ++ ((target, bytes) ∷ []))
on_answer written target bytes (breaks_off n) = (false, written ++ ((target, take n bytes) ∷ []))
on_answer written target bytes refuses = (false, written)

-- `files`: what the system does with this new file after those writes.
module _ (files : List (FilePath × Bytes) → FilePath → FileAnswer) where
  abbrev pub write_no_follow :
      List (FilePath × Bytes) → FilePath → Bytes → Bool × List (FilePath × Bytes)
  write_no_follow written target bytes = on_answer written target bytes (files written target)

  abbrev pub on_target :
      Bytes
      → Bytes
      → List (FilePath × Bytes)
      → Option FilePath
      → Option (Bool × List (FilePath × Bytes))
  on_target path bytes written none = none
  on_target path bytes written (some target) = some (write_no_follow written target bytes)

  abbrev pub next_entry :
      Bytes
      → List (FilePath × Bytes)
      → Option (Bool × List (FilePath × Bytes))
      → (List (FilePath × Bytes) → Extracted)
      → Extracted
  next_entry path written none more = (err (unsafe_path path), written)
  next_entry path written (some (false, later)) more = (err io_failed, later)
  next_entry path written (some (true, later)) more = more later

  unfoldable pub extract_from :
      FilePath → ℕ → List (FilePath × Bytes) → List ManifestEntry → Extracted
  extract_from root count written [] = (ok count, written)
  extract_from root count written (x ∷ xs) =
      next_entry x.path written (on_target x.path x.bytes written (safe_join root x.path))
        (λ later. extract_from root (suc count) later xs)

  -- With whether the root could be made.
  unfoldable pub extract_into : FilePath → Bool → List ManifestEntry → Extracted
  extract_into root made entries =
      if made then extract_from root 0 [] entries else (err io_failed, [])
