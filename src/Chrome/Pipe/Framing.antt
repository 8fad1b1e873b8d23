-- ===== src/Chrome/Pipe/Framing.antt =====
-- The frames that a reader gets from the bytes that a writer sent, however the pipe cuts them.
use browserserve.Common.{
  ℕ, zero, suc, ◌≤◌, false, Option, none, some, List, [], ◌∷◌, ◌++◌, length, take, drop, is_empty,
  ltb, map, ◌≡◌, refl, ap, sym, subst, ◌∙◌, arith, ◌⊎◌, inl, inr, Option-cases, append_assoc,
  append_nil, length-append,
}
use browserserve.Common.Result.{ok}
use browserserve.Common.Text.{Bytes, contains}
use browserserve.Chrome.Pipe.{
  CdpWriter, write_all, send_raw, read, frame, partial, take_frame, Received, received, refused,
  waiting, Reader, recv_raw,
}

-- `memchr` gives the index of the first such byte, or none when there is none.
pub record MemchrLaws (memchr : ℕ → Bytes → Option ℕ) : Type 0 where
  pub found :
      (c : ℕ) (s : Bytes) (i : ℕ)
      → memchr c s ≡ some i
      → (contains c (take i s) ≡ false)
        × (length (take i s) ≡ i)
        × (s ≡ take i s ++ (c ∷ drop 1 (drop i s)))
  pub missing : (c : ℕ) (s : Bytes) → memchr c s ≡ none → contains c s ≡ false

abbrev pub joined : List Bytes → Bytes
joined [] = []
joined (p ∷ ps) = p ++ joined ps

abbrev pub encoded : List Bytes → Bytes
encoded [] = []
encoded (f ∷ fs) = f ++ (0 ∷ encoded fs)

abbrev pub NoneEmpty : List Bytes → Type 0
NoneEmpty [] = Unit {0}
NoneEmpty (p ∷ ps) = (is_empty p ≡ false) × NoneEmpty ps

-- No zero byte in a frame, which is not above the cap.
abbrev pub AreFrames : ℕ → List Bytes → Type 0
AreFrames cap [] = Unit {0}
AreFrames cap (f ∷ fs) = (contains 0 f ≡ false) × (length f ≤ cap) × AreFrames cap fs

-- `send_raw` for each frame.
unfoldable pub send_frames : List Bytes → CdpWriter → CdpWriter
send_frames [] w = w
send_frames (f ∷ fs) w = send_frames fs (send_raw f w).1

send_frames-encoded :
    (fs : List Bytes) (out : Bytes)
    → (send_frames fs (record { written = out; faults = [] })).written ≡ out ++ encoded fs
unfolding send_frames send_raw write_all
send_frames-encoded [] out = sym (append_nil out)
send_frames-encoded (f ∷ fs) out =
    send_frames-encoded fs ((out ++ f) ++ (0 ∷ []))
    ∙ append_assoc (out ++ f) (0 ∷ []) (encoded fs)
    ∙ append_assoc out f (0 ∷ encoded fs)

same_frame :
    (a f b rest : Bytes)
    → contains 0 a ≡ false
    → contains 0 f ≡ false
    → a ++ (0 ∷ b) ≡ f ++ (0 ∷ rest)
    → (a ≡ f) × (b ≡ rest)
same_frame [] [] b rest h k e = ground arith
same_frame [] (y ∷ f) b rest h k e = absurd (ground arith)
same_frame (x ∷ a) [] b rest h k e = absurd (ground arith)
same_frame (x ∷ a) (y ∷ f) b rest h k e = ground (arith, same_frame a f b rest)

prefix_le :
    (a more f rest : Bytes)
    → contains 0 a ≡ false
    → a ++ more ≡ f ++ (0 ∷ rest)
    → length a ≤ length f
prefix_le [] more f rest h e = omega arith
prefix_le (x ∷ a) more [] rest h e = absurd (ground arith)
prefix_le (x ∷ a) more (y ∷ f) rest h e = ground (arith, prefix_le a more f rest)

ltb_no : (a b : ℕ) → b ≤ a → ltb a b ≡ false
ltb_no a b h = ground arith

module _ (memchr : ℕ → Bytes → Option ℕ) (laws : MemchrLaws memchr) (cap : ℕ) where
  -- A call has given the frame `f`, and the bytes left are `rest`.
  abbrev IsFirst : Bytes → Bytes → Received × Reader → Type 0
  IsFirst f rest out =
      (b : Bytes) × (ps : List Bytes) × (out ≡ (received f, (b, map read ps)))
      × (b ++ joined ps ≡ rest)
      × NoneEmpty ps

  abbrev Cut : Bytes → Type 0
  Cut buf =
      ((a : Bytes) × (b : Bytes) × (buf ≡ a ++ (0 ∷ b))
        × (contains 0 a ≡ false)
        × (length a ≤ cap → take_frame memchr cap buf ≡ ok (frame a b)))
      ⊎ ((contains 0 buf ≡ false) × (length buf ≤ cap → take_frame memchr cap buf ≡ ok partial))

  take_frame-Cut : (buf : Bytes) → Cut buf
  unfolding take_frame
  take_frame-Cut buf = elim (Option-cases (memchr 0 buf)) [
    | inl missing ↦
        inr (laws.missing 0 buf missing, λ small. rw (missing, ltb_no cap (length buf) small) refl)
    | inr (i, here) ↦
        let found = laws.found 0 buf i here in
        inl (
          take i buf,
          drop 1 (drop i buf),
          found.2,
          found.0,
          λ small. rw (here, ltb_no cap i (omega (arith, found.1, small))) refl,
        )
  ]

  recv_raw-taken :
      (buf a b : Bytes) (ps : List Bytes)
      → take_frame memchr cap buf ≡ ok (frame a b)
      → recv_raw memchr cap buf (map read ps) ≡ (received a, (b, map read ps))
  unfolding recv_raw
  recv_raw-taken buf a b [] e = rw e refl
  recv_raw-taken buf a b (p ∷ ps) e = rw e refl

  recv_raw-partial :
      (buf p : Bytes) (ps : List Bytes)
      → take_frame memchr cap buf ≡ ok partial
      → is_empty p ≡ false
      → recv_raw memchr cap buf (map read (p ∷ ps)) ≡ recv_raw memchr cap (buf ++ p) (map read ps)
  unfolding recv_raw
  recv_raw-partial buf p ps e h = rw (e, h) refl

  taken-IsFirst :
      (f rest buf a b : Bytes) (ps : List Bytes)
      → contains 0 f ≡ false
      → length f ≤ cap
      → NoneEmpty ps
      → buf ++ joined ps ≡ f ++ (0 ∷ rest)
      → buf ≡ a ++ (0 ∷ b)
      → contains 0 a ≡ false
      → (length a ≤ cap → take_frame memchr cap buf ≡ ok (frame a b))
      → IsFirst f rest (recv_raw memchr cap buf (map read ps))
  taken-IsFirst f rest buf a b ps hf small some_bytes e cut ha takes =
      let same =
        same_frame a f (b ++ joined ps) rest ha hf
          (sym (append_assoc a (0 ∷ b) (joined ps)) ∙ ap (λ z. z ++ joined ps) (sym cut) ∙ e) in
      (
        b,
        ps,
        recv_raw-taken buf a b ps (takes (subst (λ z. length z ≤ cap) (sym same.0) small))
            ∙ ap (λ z. (received z, (b, map read ps))) same.0,
        same.1,
        some_bytes,
      )

  recv_raw-IsFirst :
      (f rest buf : Bytes) (ps : List Bytes)
      → contains 0 f ≡ false
      → length f ≤ cap
      → NoneEmpty ps
      → buf ++ joined ps ≡ f ++ (0 ∷ rest)
      → IsFirst f rest (recv_raw memchr cap buf (map read ps))
  recv_raw-IsFirst f rest buf [] hf small some_bytes e = elim (take_frame-Cut buf) [
    | inl (a, b, cut, ha, takes) ↦
        taken-IsFirst f rest buf a b [] hf small some_bytes e cut ha takes
    | inr (z, takes) ↦ absurd (
        omega (
          arith,
          prefix_le buf [] f rest z e,
          ap length e,
          length-append buf [],
          length-append f (0 ∷ rest),
        ))
  ]
  recv_raw-IsFirst f rest buf (p ∷ ps) hf small some_bytes e = elim (take_frame-Cut buf) [
    | inl (a, b, cut, ha, takes) ↦
        taken-IsFirst f rest buf a b (p ∷ ps) hf small some_bytes e cut ha takes
    | inr (z, takes) ↦
        let le = prefix_le buf (p ++ joined ps) f rest z e in
        subst (IsFirst f rest)
          (sym (recv_raw-partial buf p ps (takes (omega (arith, le, small))) some_bytes.0))
          (recv_raw-IsFirst f rest (buf ++ p) ps hf small some_bytes.1
            (append_assoc buf p (joined ps) ∙ e))
  ]

  abbrev onto_frames : Received → List Bytes → List Bytes
  onto_frames (received f) fs = f ∷ fs
  onto_frames (refused e) fs = []
  onto_frames waiting fs = []

  -- Calls of `recv_raw`, `n` at most, while each gives a frame: the frames in their order.
  unfoldable pub recv_frames : ℕ → Reader → List Bytes
  recv_frames zero r = []
  recv_frames (suc n) r =
      let out = recv_raw memchr cap r.0 r.1 in onto_frames out.0 (recv_frames n out.1)

  recv_frames-encoded :
      (fs : List Bytes) (buf : Bytes) (ps : List Bytes)
      → AreFrames cap fs
      → NoneEmpty ps
      → buf ++ joined ps ≡ encoded fs
      → recv_frames (length fs) (buf, map read ps) ≡ fs
  unfolding recv_frames
  recv_frames-encoded [] buf ps frames some_bytes e = refl
  recv_frames-encoded (f ∷ fs) buf ps frames some_bytes e =
      let first = recv_raw-IsFirst f (encoded fs) buf ps frames.0 frames.1 some_bytes e in
      ap (λ out. onto_frames out.0 (recv_frames (length fs) out.1)) first.2
      ∙ ap (◌∷◌ f) (recv_frames-encoded fs first.0 first.1 frames.2 first.4 first.3)

  -- Frames sent one after the other over a pipe without faults come out of as many calls of
  -- `recv_raw`, the same and in their order, however the pipe cuts the bytes into pieces that are
  -- not empty. A frame has no zero byte and is not longer than the cap.
  pub recv_frames-send_frames :
      (fs ps : List Bytes)
      → AreFrames cap fs
      → NoneEmpty ps
      → joined ps ≡ (send_frames fs (record { written = []; faults = [] })).written
      → recv_frames (length fs) ([], map read ps) ≡ fs
  recv_frames-send_frames fs ps frames some_bytes e =
      recv_frames-encoded fs [] ps frames some_bytes (e ∙ send_frames-encoded fs [])
