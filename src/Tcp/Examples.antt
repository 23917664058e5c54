-- ===== src/Tcp/Examples.antt =====
-- The theorems on sessions at a registry with two connections, and at a GT06 session.
use farbo_rastreamento.Prelude.{
  ℕ, ◌≡◌, refl, ap, arith, Bool, true, false, none, some, [], ◌∷◌, ◌++◌, ok, inl, take, drop,
}
use farbo_rastreamento.Prelude.Words.{Bytes, u16_at}
use farbo_rastreamento.Prelude.Maps.{lookup, text_eq}
use farbo_rastreamento.Protocols.Floats.{Fraction, fraction_ops}
use farbo_rastreamento.Protocols.Calendar.{CivilTime}
use farbo_rastreamento.Protocols.Text.{codes}
use farbo_rastreamento.Gt06.Frame.{build_frame, next_frame}
use farbo_rastreamento.Gt06.Frame.Contract.{next_frame-FramerLaws}
use farbo_rastreamento.Gt06.Frame.RoundTrip.{build_frame-framed}
use farbo_rastreamento.Gt06.Parse.{parse, detect, ParseError}
use farbo_rastreamento.Tcp.Manager.{Net, accept, identify, register, finish, send, get}
use farbo_rastreamento.Tcp.Manager.Registry.{
  IsSound, accepts, registers, identifies, here, next, Reach-IsSound, send-register-finish,
  send-identify-finish,
}
use farbo_rastreamento.Tcp.Session.{TrackerProtocol, Effects, Core, Session, accepted, run}
use farbo_rastreamento.Tcp.Session.Progress.{run_total}
use farbo_rastreamento.Tcp.Session.Stream.{ends, speaking, run-deliver}
use farbo_rastreamento.Tcp.Session.Feed.{concat, deliver}

abbrev no_connections : Net
no_connections = record { conns = []; imei = λ c. []; is_open = λ c. false; notified = 0 }

abbrev first_imei : Bytes
first_imei = codes "353419032347480"

abbrev second_imei : Bytes
second_imei = codes "863419032347481"

nobody-IsSound : IsSound no_connections
unfolding get lookup
nobody-IsSound = record { speaks = λ key d h. cc; opened = λ key d h. cc; named = λ key d h. cc }

Reach-IsSound_example : IsSound (register 1 (identify 1 first_imei (accept 1 no_connections)))
unfolding get lookup accept identify
Reach-IsSound_example = Reach-IsSound nobody-IsSound (
    next (next (next here (accepts 1 (λ key e. cc))) (identifies 1 first_imei (inl refl)))
      (registers 1 refl))

-- Connections 1 and 2 of one tracker.
abbrev twice : Net
twice = record {
  conns = (first_imei, 1) ∷ [];
  imei = λ c. first_imei;
  is_open = λ c. true;
  notified = 1;
}

send-register-finish_example : send first_imei (0x78 ∷ []) (finish 1 (register 2 twice)) ≡ ok 2
send-register-finish_example =
    send-register-finish 1 2 twice (0x78 ∷ []) (λ e. cc) (λ e. absurd (omega arith)) (λ e. cc)

one_registered : get first_imei twice ≡ some 1
unfolding get lookup text_eq
one_registered = refl

send-identify-finish_example :
    (send first_imei (0x78 ∷ []) (finish 1 (identify 1 second_imei twice)) ≡ ok 1)
    × ((finish 1 (identify 1 second_imei twice)).is_open 1 ≡ false)
send-identify-finish_example =
    send-identify-finish 1 first_imei second_imei twice (0x78 ∷ []) one_registered
      (λ e. absurd (omega (arith, ap u16_at e))) (λ e. cc)

abbrev noon : CivilTime
noon = record { year = 2025; month = 6; day = 1; hour = 12; minute = 0; second = 0 }

abbrev gt06 : TrackerProtocol ParseError Fraction
gt06 = record {
  name = codes "gt06";
  detect = detect;
  next_frame = next_frame;
  parse = parse false noon;
}

-- A world that counts the messages that it is handed.
abbrev counting : Effects ParseError Fraction ℕ
counting = record {
  handle_message = λ w who msg.
      (Prim.Native.Nat.suc w, record { imei = msg.imei; device_id = some 1 }, accepted);
  handle_invalid = λ w who bs name why. w;
  send = λ w bs. (w, true);
  register = λ w who. w;
}

abbrev fresh_core : Core ℕ
fresh_core = record {
  world = 0;
  identity = record { imei = first_imei; device_id = none };
  registered = true;
}

abbrev beat_content : Bytes
beat_content = 0x46 ∷ 0x04 ∷ 0x04 ∷ 0x00 ∷ 0x02 ∷ []

abbrev beat : Bytes
beat = build_frame 0x13 beat_content 7

run_total_example :
    (r : Session ParseError Fraction ℕ × Bool) × (run counting 4096
        (gt06 ∷ [])
        (speaking gt06 fresh_core [])
        (beat ∷ [])
      ≡ some r)
run_total_example = run_total counting 4096 (gt06 ∷ []) (speaking gt06 fresh_core []) (beat ∷ [])

-- Two frames, read in two chunks that are cut within the first one.
beats_cut : concat (take 4 beat ∷ (drop 4 beat ++ beat) ∷ []) ≡ concat (beat ∷ beat ∷ [])
unfolding build_frame
beats_cut = refl

run-deliver_example :
    ends (
      run counting 4096 [] (speaking gt06 fresh_core []) (take 4 beat ∷ (drop 4 beat ++ beat) ∷ []))
    ≡ some (deliver counting gt06 fresh_core (beat ∷ beat ∷ []))
unfolding build_frame
run-deliver_example =
    run-deliver counting gt06 4096 (next_frame-FramerLaws 4096) 4096 []
      (take 4 beat ∷ (drop 4 beat ++ beat) ∷ []) fresh_core (beat ∷ beat ∷ []) beats_cut
      (
        (
          omega arith,
          build_frame-framed 0x13 beat_content 7 (omega arith),
          omega arith,
          omega arith,
        ),
        (
          (
            omega arith,
            build_frame-framed 0x13 beat_content 7 (omega arith),
            omega arith,
            omega arith,
          ),
          tt,
        ),
      )
      (omega arith, (omega arith, tt))
