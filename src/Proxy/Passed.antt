-- ===== src/Proxy/Passed.antt =====
-- What a task passes on.
use newt_rust.Common.{
  Bool, true, false, List, [], ◌∷◌, ◌++◌, ◌≡◌, sym, ◌∙◌, append_assoc, append-nil, none, some,
  if◌then◌else◌,
}
use newt_rust.Common.Results.{ok, err}
use newt_rust.Common.Net.{Bytes}
use newt_rust.Proxy.{Input, message, bytes_read, Bridged, bridge_loop}

-- the inputs in front of the one that ends the loop
abbrev pub ends : Input → Bool
ends (message none done) = true
ends (message (some chunk) true) = false
ends (message (some chunk) false) = true
ends (bytes_read (err why) done) = true
ends (bytes_read (ok []) done) = true
ends (bytes_read (ok (x ∷ xs)) true) = false
ends (bytes_read (ok (x ∷ xs)) false) = true

abbrev pub in_front : List Input → List Input
in_front [] = []
in_front (i ∷ inputs) = let rest = in_front inputs in if ends i then [] else i ∷ rest

-- the bytes of the messages for the stream, and the chunks that were read from it
abbrev pub for_stream : List Input → Bytes
for_stream [] = []
for_stream (message (some chunk) done ∷ inputs) = chunk ++ for_stream inputs
for_stream (message none done ∷ inputs) = for_stream inputs
for_stream (bytes_read r done ∷ inputs) = for_stream inputs

abbrev pub for_loop : List Input → List Bytes
for_loop [] = []
for_loop (bytes_read (ok chunk) done ∷ inputs) = chunk ∷ for_loop inputs
for_loop (bytes_read (err why) done ∷ inputs) = for_loop inputs
for_loop (message m done ∷ inputs) = for_loop inputs

stopped : (b : Bridged) → (b.written ≡ b.written ++ []) × (b.sent ≡ b.sent ++ [])
stopped b = (sym (append-nil b.written), sym (append-nil b.sent))

-- In each direction the task passes on the chunks, whole and in order, up to the input that ends its loop: the
-- messages for the stream, and what was read from it.
pub bridge_loop-passed :
    (inputs : List Input) (b : Bridged)
    → ((bridge_loop inputs b).1.written ≡ b.written ++ for_stream (in_front inputs))
      × ((bridge_loop inputs b).1.sent ≡ b.sent ++ for_loop (in_front inputs))
unfolding bridge_loop
bridge_loop-passed [] b = stopped b
bridge_loop-passed (message none done ∷ inputs) b = stopped b
bridge_loop-passed (message (some chunk) false ∷ inputs) b = stopped b
bridge_loop-passed (message (some chunk) true ∷ inputs) b =
    let (w, s) = bridge_loop-passed inputs (record b { written = b.written ++ chunk }) in
    (w ∙ append_assoc b.written chunk (for_stream (in_front inputs)), s)
bridge_loop-passed (bytes_read (err why) done ∷ inputs) b = stopped b
bridge_loop-passed (bytes_read (ok []) done ∷ inputs) b = stopped b
bridge_loop-passed (bytes_read (ok (x ∷ xs)) false ∷ inputs) b = stopped b
bridge_loop-passed (bytes_read (ok (x ∷ xs)) true ∷ inputs) b =
    let (w, s) = bridge_loop-passed inputs (record b { sent = b.sent ++ (x ∷ xs) ∷ [] }) in
    (w, s ∙ append_assoc b.sent ((x ∷ xs) ∷ []) (for_loop (in_front inputs)))
