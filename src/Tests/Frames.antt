-- ===== src/Tests/Frames.antt =====
-- Frames on concrete bytes.
use newt_rust.Common.{true, [], ◌∷◌, ◌++◌, ◌≡◌, refl, arith}
use newt_rust.Common.Results.{ok}
use newt_rust.Common.Net.{Bytes}
use newt_rust.Transport.Frame.{write_frame, read_frame}
use newt_rust.Transport.Frame.RoundTrip.{read_frame-write_frame}

abbrev mask : Bytes
mask = 1 ∷ 2 ∷ 3 ∷ 4 ∷ []

abbrev hello : Bytes
hello = 104 ∷ 101 ∷ 108 ∷ 108 ∷ 111 ∷ []

writes : write_frame mask 1 hello ≡ 129 ∷ 133 ∷ 1 ∷ 2 ∷ 3 ∷ 4 ∷ 105 ∷ 103 ∷ 111 ∷ 104 ∷ 110 ∷ []
unfolding write_frame
writes = refl

read_frame-write_frame_example :
    read_frame (write_frame mask 1 hello ++ 7 ∷ []) ≡ ok ((true, 1, hello), 7 ∷ [])
read_frame-write_frame_example =
    read_frame-write_frame mask hello (7 ∷ []) 1 refl (ground arith) (ground arith) (omega arith)
      (omega arith)
