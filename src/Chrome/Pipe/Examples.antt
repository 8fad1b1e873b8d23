-- ===== src/Chrome/Pipe/Examples.antt =====
-- Two frames over a pipe that cuts them in the wrong places.
use browserserve.Common.{
  ℕ, zero, suc, true, false, Option, none, some, List, [], ◌∷◌, ◌++◌, length, take, drop, map, ◌==◌,
  if◌then◌else◌, ◌≡◌, refl, ap, subst, arith, inl, inr, Bool-cases,
}
use browserserve.Common.Text.{Bytes, codes, contains}
use browserserve.Chrome.Pipe.{read, send_raw, write_all}
use browserserve.Chrome.Pipe.Framing.{
  MemchrLaws, recv_frames, recv_frames-send_frames, joined, send_frames,
}

abbrev plus_one : Option ℕ → Option ℕ
plus_one none = none
plus_one (some i) = some (suc i)

unfoldable position : ℕ → Bytes → Option ℕ
position c [] = none
position c (x ∷ xs) = if x == c then some 0 else plus_one (position c xs)

abbrev IsFirstAt : ℕ → Bytes → ℕ → Type 0
IsFirstAt c s i =
    (contains c (take i s) ≡ false)
    × (length (take i s) ≡ i)
    × (s ≡ take i s ++ (c ∷ drop 1 (drop i s)))

some_inj : (a b : ℕ) → some a ≡ some b → a ≡ b
some_inj a b h = ground arith

suc_inj : (a b : ℕ) → some (suc a) ≡ some (suc b) → a ≡ b
suc_inj a b h = ground arith

eq_of : (a b : ℕ) → (a == b) ≡ true → a ≡ b
eq_of a b h = ground arith

position-found : (c : ℕ) (s : Bytes) (i : ℕ) → position c s ≡ some i → IsFirstAt c s i
unfolding position
position-found c [] i h = absurd (ground arith)
position-found c (x ∷ xs) i h = elim (Bool-cases (x == c)) [
  | inl hit ↦
      subst (IsFirstAt c (x ∷ xs)) (some_inj 0 i (rw hit at h))
        (refl, refl, ap (λ y. y ∷ xs) (eq_of x c hit))
  | inr miss ↦ later miss (position c xs) i (position-found c xs) (rw miss at h)
]
  where
    later :
        (x == c) ≡ false
        → (o : Option ℕ) (k : ℕ) → ((j : ℕ) → o ≡ some j → IsFirstAt c xs j)
        → plus_one o ≡ some k
        → IsFirstAt c (x ∷ xs) k
    later miss none k f e = absurd (ground arith)
    later miss (some j) zero f e = absurd (ground arith)
    later miss (some j) (suc k) f e =
        let there = f k (ap some (suc_inj j k e)) in
        (rw miss there.0, ap suc there.1, ap (◌∷◌ x) there.2)

position-missing : (c : ℕ) (s : Bytes) → position c s ≡ none → contains c s ≡ false
unfolding position
position-missing c [] h = refl
position-missing c (x ∷ xs) h = elim (Bool-cases (x == c)) [
  | inl hit ↦ absurd (ground arith)
  | inr miss ↦ rw miss (position-missing c xs (none_of (position c xs) (rw miss at h)))
]
  where
    none_of : (o : Option ℕ) → plus_one o ≡ none → o ≡ none
    none_of none e = refl
    none_of (some j) e = absurd (ground arith)

position-MemchrLaws : MemchrLaws position
position-MemchrLaws = record { found = position-found; missing = position-missing }

abbrev sent : List Bytes
sent = codes "ab" ∷ codes "c" ∷ []

abbrev pieces : List Bytes
pieces = codes "a" ∷ (98 ∷ 0 ∷ 99 ∷ []) ∷ (0 ∷ []) ∷ []

joined-pieces : joined pieces ≡ (send_frames sent (record { written = []; faults = [] })).written
unfolding send_frames send_raw write_all
joined-pieces = refl

recv_frames-send_frames_example :
    recv_frames position position-MemchrLaws 2 2 ([], map read pieces) ≡ sent
recv_frames-send_frames_example =
    recv_frames-send_frames position position-MemchrLaws 2 sent pieces
      (refl, omega arith, (refl, omega arith, tt)) (refl, (refl, (refl, tt))) joined-pieces
