-- ===== src/Ipc/Tests.antt =====
-- Frames of one-byte messages.
use postblox.Common.{ℕ, ◌≡◌, refl, sym, ap, List, [], ◌∷◌, Result, ok, err, length, arith}
use postblox.Common.Text.{Text}
use postblox.Ipc.Wire.{Json, write_frame, read_frames, write_frames}
use postblox.Ipc.Wire.RoundTrip.{Faithful, read_frames-write_frames}

abbrev first : List ℕ → Result Text ℕ
first [] = err []
first (b ∷ bytes) = ok b

abbrev digit : Json ℕ
digit = record { to_vec = λ n. ok (n ∷ []); from_slice = first }

digit-Faithful : Faithful digit
digit-Faithful = record {
  reads_back = λ v bytes h. let k : (v ∷ []) ≡ bytes = cc h in ap first (sym k);
  writes = λ v bytes h e.
      let k : (v ∷ []) ≡ bytes = cc h in let one : 1 ≡ length bytes = ap length k in omega arith;
}

abbrev stream : List ℕ
stream = 0 ∷ (0 ∷ (0 ∷ (1 ∷ (7 ∷ (0 ∷ (0 ∷ (0 ∷ (1 ∷ (9 ∷ [])))))))))

read_frames-write_frames_example : read_frames digit 2 stream ≡ ok (7 ∷ (9 ∷ []))
unfolding write_frames write_frame
read_frames-write_frames_example =
    read_frames-write_frames digit digit-Faithful (7 ∷ (9 ∷ [])) stream refl
