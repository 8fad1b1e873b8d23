-- ===== src/Profile/Manifest/Beneath.antt =====
-- profile/manifest.rs: where extracted files lie.
use browserserve.Common.{
  ℕ, suc, ◌+◌, Bool, true, false, not, ◌&&◌, Option, none, some, List, [], ◌∷◌, ◌++◌, length,
  is_empty, append_nil, append_assoc, length-append, take, ◌==◌, ◌≡◌, refl, sym, ap, ◌∙◌, subst,
  arith, Bool-cases, ◌⊎◌, inl, inr,
}
use browserserve.Common.Result.{ok, err}
use browserserve.Common.Text.{Bytes, codes, equal, contains}
use browserserve.Profile.Manifest.{
  Component, root_dir, cur_dir, parent_dir, normal, onto_part, split_slashes, component_of,
  later_components, first_component, all_components, components, is_absolute, FilePath, push_all,
  if_pushed, safe_join, FileAnswer, stores, breaks_off, refuses, on_answer, io_failed,
  ManifestEntry, ExtractError, Extracted, on_target, next_entry, extract_from, extract_into,
}

some_injective : {A : Type 0} {a b : A} → some a ≡ some b → a ≡ b
some_injective h = cc

none-eq-some : {A : Type 0} {a : A} → none ≡ some a → ⊥
none-eq-some h = ground (arith, h)

-- A part that names something in its directory: it is not empty, has no slash, and is no dot or two.
abbrev pub is_name : Bytes → Bool
is_name part =
    not (is_empty part)
    && (not (contains b'/' part) && (not (equal part (codes ".")) && not (equal part (codes ".."))))

abbrev pub AreNames : List Bytes → Type 0
AreNames [] = Unit {0}
AreNames (part ∷ parts) = (is_name part ≡ true) × AreNames parts

-- The path is the root with at least one name behind it.
abbrev pub IsBeneath : FilePath → FilePath → Type 0
IsBeneath root path =
    (part : Bytes) × (parts : List Bytes) × (path ≡ root ++ (part ∷ parts))
    × AreNames (part ∷ parts)

abbrev pub NoSlash : List Bytes → Type 0
NoSlash [] = Unit {0}
NoSlash (part ∷ parts) = (contains b'/' part ≡ false) × NoSlash parts

onto_part-NoSlash :
    (c : ℕ) (parts : List Bytes) → (c == b'/') ≡ false → NoSlash parts → NoSlash (onto_part c parts)
onto_part-NoSlash c [] h k = (rw h refl, tt)
onto_part-NoSlash c (p ∷ ps) h k = (rw h k.0, k.1)

split_slashes-NoSlash : (s : Bytes) → NoSlash (split_slashes s)
unfolding split_slashes
split_slashes-NoSlash [] = (refl, tt)
split_slashes-NoSlash (c ∷ cs) = elim (Bool-cases (c == b'/')) [
  | inl slash ↦ rw slash (refl, split_slashes-NoSlash cs)
  | inr letter ↦
      rw letter (onto_part-NoSlash c (split_slashes cs) letter (split_slashes-NoSlash cs))
]

-- Components of which the normal ones are names.
abbrev AreProper : List Component → Type 0
AreProper [] = Unit {0}
AreProper (normal part ∷ cs) = (is_name part ≡ true) × AreProper cs
AreProper (_ ∷ cs) = AreProper cs

abbrev IsProperOne : Component → Type 0
IsProperOne (normal part) = is_name part ≡ true
IsProperOne _ = Unit {0}

component_of-IsProperOne :
    (part : Bytes)
    → contains b'/' part ≡ false
    → is_empty part ≡ false
    → equal part (codes ".") ≡ false
    → IsProperOne (component_of part)
component_of-IsProperOne part s n d = elim (Bool-cases (equal part (codes ".."))) [
  | inl up ↦ rw up tt
  | inr down ↦ rw down (rw (n, s, d, down) refl)
]

join-AreProper :
    (c : Component) (cs : List Component) → IsProperOne c → AreProper cs → AreProper (c ∷ cs)
join-AreProper root_dir cs h k = k
join-AreProper cur_dir cs h k = k
join-AreProper parent_dir cs h k = k
join-AreProper (normal part) cs h k = (h, k)

later_components-AreProper :
    (parts : List Bytes) → NoSlash parts → AreProper (later_components parts)
unfolding later_components
later_components-AreProper [] h = tt
later_components-AreProper (part ∷ parts) h = elim (Bool-cases (is_empty part)) [
  | inl nothing ↦ rw nothing (later_components-AreProper parts h.1)
  | inr something ↦ elim (Bool-cases (equal part (codes "."))) [
    | inl dot ↦ rw (something, dot) (later_components-AreProper parts h.1)
    | inr other ↦
        rw (something, other)
          (join-AreProper (component_of part) _ (component_of-IsProperOne part h.0 something other)
            (later_components-AreProper parts h.1))
  ]
]

first_component-AreProper :
    (part : Bytes) (cs : List Component)
    → contains b'/' part ≡ false
    → AreProper cs
    → AreProper (first_component part ++ cs)
first_component-AreProper part cs s k = elim (Bool-cases (is_empty part)) [
  | inl nothing ↦ rw nothing k
  | inr something ↦ elim (Bool-cases (equal part (codes "."))) [
    | inl dot ↦ rw (something, dot) k
    | inr other ↦
        rw (something, other)
          (join-AreProper (component_of part) cs (component_of-IsProperOne part s something other)
            k)
  ]
]

all_components-AreProper : (parts : List Bytes) → NoSlash parts → AreProper (all_components parts)
all_components-AreProper [] h = tt
all_components-AreProper (part ∷ parts) h =
    first_component-AreProper part _ h.0 (later_components-AreProper parts h.1)

components-AreProper : (s : Bytes) → AreProper (components s)
unfolding components
components-AreProper [] = tt
components-AreProper (c ∷ cs) = all_components-AreProper _ (split_slashes-NoSlash (c ∷ cs))

push_all-IsBeneath :
    (cs : List Component) (root : FilePath) (out path : FilePath)
    → AreProper cs
    → push_all out cs ≡ some path
    → (parts : List Bytes) × (path ≡ out ++ parts) × AreNames parts × (length parts ≡ length cs)
unfolding push_all
push_all-IsBeneath [] root out path p h =
    ([], sym (some_injective h) ∙ sym (append_nil out), tt, refl)
push_all-IsBeneath (normal part ∷ cs) root out path p h =
    let (parts, is_path, names, same) =
      push_all-IsBeneath cs root (out ++ (part ∷ [])) path p.1 h in
    (part ∷ parts, is_path ∙ append_assoc out (part ∷ []) parts, (p.0, names), ap suc same)
push_all-IsBeneath (root_dir ∷ cs) root out path p h = absurd (none-eq-some h)
push_all-IsBeneath (cur_dir ∷ cs) root out path p h = absurd (none-eq-some h)
push_all-IsBeneath (parent_dir ∷ cs) root out path p h = absurd (none-eq-some h)

if_pushed-IsBeneath :
    (cs : List Component) (root path : FilePath)
    → AreProper cs
    → if_pushed root cs ≡ some path
    → IsBeneath root path
if_pushed-IsBeneath [] root path p h = absurd (none-eq-some h)
if_pushed-IsBeneath (c ∷ cs) root path p h = first (push_all-IsBeneath (c ∷ cs) root root path p h)
  where
    first :
        (parts : List Bytes) × (path ≡ root ++ parts)
          × AreNames parts
          × (length parts ≡ suc (length cs))
        → IsBeneath root path
    first ([], is_path, names, same) = absurd (ground (arith, same))
    first (part ∷ parts, is_path, names, same) = (part, parts, is_path, names)

safe_join-IsBeneath :
    (root path : FilePath) (rel : Bytes) → safe_join root rel ≡ some path → IsBeneath root path
unfolding safe_join
safe_join-IsBeneath root path rel h = elim (Bool-cases (is_absolute rel)) [
  | inl absolute ↦ absurd (none-eq-some (rw absolute at h))
  | inr relative ↦
      if_pushed-IsBeneath (components rel) root path (components-AreProper rel) (rw relative at h)
]

abbrev pub AllBeneath : FilePath → List (FilePath × Bytes) → Type 0
AllBeneath root [] = Unit {0}
AllBeneath root ((path, bytes) ∷ ws) = IsBeneath root path × AllBeneath root ws

AllBeneath-append :
    (root path : FilePath) (bytes : Bytes) (ws : List (FilePath × Bytes))
    → AllBeneath root ws
    → IsBeneath root path
    → AllBeneath root (ws ++ ((path, bytes) ∷ []))
AllBeneath-append root path bytes [] h k = (k, tt)
AllBeneath-append root path bytes (w ∷ ws) h k = (h.0, AllBeneath-append root path bytes ws h.1 k)

module _ (files : List (FilePath × Bytes) → FilePath → FileAnswer) (root : FilePath) where
  -- All writes are beneath the root, and on success there is one for each entry.
  abbrev Good : ℕ → Extracted → Type 0
  Good total (ok n, ws) = AllBeneath root ws × (n ≡ total) × (length ws ≡ total)
  Good total (err e, ws) = AllBeneath root ws

  entry-Good :
      (path bytes : Bytes) (ws : List (FilePath × Bytes)) (total : ℕ) (o : Option FilePath)
      (more : List (FilePath × Bytes) → Extracted)
      → safe_join root path ≡ o
      → AllBeneath root ws
      → ((later : List (FilePath × Bytes))
          → AllBeneath root later
          → length later ≡ suc (length ws)
          → Good total (more later))
      → Good total (next_entry files path ws (on_target files path bytes ws o) more)
  entry-Good path bytes ws total none more o h k = h
  entry-Good path bytes ws total (some target) more o h k = on_file (files ws target)
    where
      on_file :
          (a : FileAnswer)
          → Good total (next_entry files path ws (some (on_answer ws target bytes a)) more)
      on_file stores =
          k _ (AllBeneath-append root target bytes ws h (safe_join-IsBeneath root target path o))
            (length-append ws ((target, bytes) ∷ []) ∙ omega arith)
      on_file (breaks_off n) =
          AllBeneath-append root target (take n bytes) ws h (safe_join-IsBeneath root target path o)
      on_file refuses = h

  extract_from-Good :
      (entries : List ManifestEntry) (count : ℕ) (ws : List (FilePath × Bytes))
      → AllBeneath root ws
      → length ws ≡ count
      → Good (count + length entries) (extract_from files root count ws entries)
  unfolding extract_from
  extract_from-Good [] count ws h k = (h, omega arith, omega (arith, k))
  extract_from-Good (x ∷ xs) count ws h k =
      entry-Good x.path x.bytes ws (count + suc (length xs)) _ _ refl h (λ later below same.
        subst (λ n. Good n (extract_from files root (suc count) later xs)) (omega arith)
          (extract_from-Good xs (suc count) later below (omega (arith, same, k))))

  -- Whatever the captured entries say, every file that is extracted lies beneath the root, under names
  -- that are neither empty nor dots and have no slash, also when the extraction stops at an entry or
  -- in the middle of a file; when it does not, there is one file for each entry and that is the
  -- number returned.
  pub extract_into-AllBeneath :
      (made : Bool) (entries : List ManifestEntry)
      → AllBeneath root (extract_into files root made entries).1
        × (((extract_into files root made entries).0 ≡ ok (length entries))
              × (length (extract_into files root made entries).1 ≡ length entries)
            ⊎ ((e : ExtractError) × ((extract_into files root made entries).0 ≡ err e)))
  unfolding extract_into
  extract_into-AllBeneath false entries = (tt, inr (io_failed, refl))
  extract_into-AllBeneath true entries = outcome (extract_from files root 0 [] entries) (
      subst (λ n. Good n (extract_from files root 0 [] entries)) (omega arith)
        (extract_from-Good entries 0 [] tt refl))
    where
      outcome :
          (r : Extracted)
          → Good (length entries) r
          → AllBeneath root r.1
            × ((r.0 ≡ ok (length entries)) × (length r.1 ≡ length entries)
                ⊎ ((e : ExtractError) × (r.0 ≡ err e)))
      outcome (ok n, ws) (below, is_n, same) = (below, inl (ap ok is_n, same))
      outcome (err e, ws) below = (below, inr (e, refl))
