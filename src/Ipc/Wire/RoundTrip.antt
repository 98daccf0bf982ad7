-- ===== src/Ipc/Wire/RoundTrip.antt =====
-- Reading the frames that were written (src/ipc/wire.rs).
use postblox.Common.{
  ℕ, ◌/◌, ◌%◌, ◌^◌, ◌≤◌, ◌<◌, ◌≡◌, ◌≢◌, refl, sym, subst, ◌∙◌, false, List, [], ◌∷◌, ◌++◌, some, ok,
  >>=-eq-ok, ◌==◌, ltb, length, Bool-cases, Result-cases, inl, inr, arith, ==_iff,
}
use postblox.Ipc.Wire.{
  Json, max_frame_bytes, to_be_bytes, from_be_bytes, read_exact, read_payload, read_frame,
  write_frame, write_frames, frames_from, read_frames,
}

read_exact-append :
    (payload rest : List ℕ) → read_exact (length payload) (payload ++ rest) ≡ some (payload, rest)
unfolding read_exact
read_exact-append [] rest = refl
read_exact-append (b ∷ payload) rest = rw (read_exact-append payload rest) refl

from_be_bytes-to_be_bytes :
    (n : ℕ)
    → n < 2 ^ 32
    → from_be_bytes (n / 2 ^ 24 % 256) (n / 2 ^ 16 % 256) (n / 2 ^ 8 % 256) (n % 256) ≡ n
from_be_bytes-to_be_bytes n h = omega arith

at_most : (m n : ℕ) → ltb m n ≡ false → n ≤ m
at_most m n h = ground arith

-- The values that the codec of JSON reads back from what it wrote, which is never empty.
pub record Faithful {T : Type 0} (codec : Json T) : Type 0 where
  pub reads_back :
      (v : T) (bytes : List ℕ) → codec.to_vec v ≡ ok bytes → codec.from_slice bytes ≡ ok v
  pub writes : (v : T) (bytes : List ℕ) → codec.to_vec v ≡ ok bytes → length bytes ≢ 0

module _ {T : Type 0} (codec : Json T) (faithful : Faithful codec) where
  read_payload-append :
      (v : T) (payload rest : List ℕ)
      → codec.to_vec v ≡ ok payload
      → ltb max_frame_bytes (length payload) ≡ false
      → read_payload codec (length payload) (payload ++ rest) ≡ ok (v, rest)
  unfolding read_payload
  read_payload-append v payload rest e small = elim (Bool-cases (length payload == 0)) [
    | inl z ↦ absurd (faithful.writes v payload e ((==_iff (length payload) 0).0 z))
    | inr z ↦
        rw z (
          rw small
            (rw (read_exact-append payload rest) (rw (faithful.reads_back v payload e) refl)))
  ]

  -- A frame that was written is read back, and what follows it in the stream is left.
  pub read_frame-write_frame :
      (v : T) (bytes rest : List ℕ)
      → write_frame codec v ≡ ok bytes
      → read_frame codec (bytes ++ rest) ≡ ok (v, rest)
  unfolding write_frame read_frame
  read_frame-write_frame v bytes rest h = elim (Result-cases (codec.to_vec v)) [
    | inr (x, e) ↦ absurd (cc (rw e at h))
    | inl (payload, e) ↦ elim (Bool-cases (ltb max_frame_bytes (length payload))) [
      | inl large ↦ absurd (cc (rw (e, large) at h))
      | inr small ↦
          let n : length payload % 2 ^ 32 ≡ length payload =
            omega (arith, at_most max_frame_bytes (length payload) small) in
          let same : to_be_bytes (length payload % 2 ^ 32) ++ payload ≡ bytes =
            cc (rw (e, small) at h) in
          subst (λ (bs : List ℕ). read_frame codec (bs ++ rest) ≡ ok (v, rest)) same
            (subst (λ k. read_payload codec k (payload ++ rest) ≡ ok (v, rest))
              (sym (from_be_bytes-to_be_bytes (length payload % 2 ^ 32) (omega arith) ∙ n))
              (read_payload-append v payload rest e small))
    ]
  ]

  -- Frames that were written one after the other are read back in the same order, as many as there
  -- are, if every one was within the limit.
  pub read_frames-write_frames :
      (values : List T) (bytes : List ℕ)
      → write_frames codec values ≡ ok bytes
      → read_frames codec (length values) bytes ≡ ok values
  unfolding write_frames read_frames
  read_frames-write_frames [] bytes h = refl
  read_frames-write_frames (v ∷ values) bytes h =
      let (first, written, more) = >>=-eq-ok (write_frame codec v) _ h in
      let (rest, others, whole) = >>=-eq-ok (write_frames codec values) _ more in
      let same : first ++ rest ≡ bytes = cc whole in
      subst
        (λ (bs : List ℕ).
          frames_from codec (read_frame codec bs) (read_frames codec (length values))
          ≡ ok (v ∷ values))
        same
        (rw (read_frame-write_frame v first rest written)
          (rw (read_frames-write_frames values rest others) refl))
