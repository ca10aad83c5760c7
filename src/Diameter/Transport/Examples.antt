-- ===== src/Diameter/Transport/Examples.antt =====
-- internal/diameter/tcp.go: two calls on one connection, and an answer to the second.
use vectorcore_gmlc.Base.{◌≡◌, refl, arith, none, List, [], ◌∷◌, ok, err}
use vectorcore_gmlc.Errors.{unavailable}
use vectorcore_gmlc.Diameter.Message.{Message}
use vectorcore_gmlc.Diameter.Sample.{sample}
use vectorcore_gmlc.Diameter.Transport.{
  Call, returned, Event, starts, wrote, read, receives, lost, sweeps, step, run, dialed, begin,
}
use vectorcore_gmlc.Diameter.Transport.Entries.{Sound}
use vectorcore_gmlc.Diameter.Transport.Matching.{dialed-Sound}
use vectorcore_gmlc.Diameter.Transport.Arrival.{dialed-read}

abbrev ping : Message
ping = sample.new_request 1 0

abbrev no_call : Call
no_call = record { sent = ping; progress = returned (err unavailable); channel = none }

abbrev two_calls : List Event
two_calls = starts ping ∷ starts ping ∷ wrote 1 ∷ wrote 0 ∷ []

-- The answer to the message with the identifier 2.
abbrev pong : Message
pong = record (sample.answer ping 2001) {
  header = record (sample.answer ping 2001).header { hop_by_hop = 2 };
}

dialed-Sound_example : Sound (run (starts ping ∷ wrote 0 ∷ lost ∷ sweeps ∷ []) (dialed no_call))
dialed-Sound_example = dialed-Sound no_call (starts ping ∷ wrote 0 ∷ lost ∷ sweeps ∷ []) (tt, tt)

dialed-read_example :
    ((step (receives 1) (step (read pong) (run two_calls (dialed no_call)))).calls 1).progress
    ≡ returned (ok pong)
unfolding step begin
dialed-read_example =
    dialed-read no_call two_calls 1 pong (tt, tt) refl (omega arith) refl refl refl refl refl
