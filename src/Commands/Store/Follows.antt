-- ===== src/Commands/Store/Follows.antt =====
-- command.go: what a statement may do to the row of a command.
use farbo_rastreamento.Prelude.{ℕ, ◌≤◌, true, false, ◌≡◌, refl, arith}
use farbo_rastreamento.Prelude.Words.{Bytes}
use farbo_rastreamento.Protocols.Calendar.{Time}
use farbo_rastreamento.Commands.Store.{
  Status, pending, sending, sent, timeout, terminal, Reason, Row, is_pending, is_unsent, is_open,
  set_sending, set_sent, set_acknowledged, set_final, set_timeout, overdue,
}

-- How far a command has come.
unfoldable pub rank : Status → ℕ
rank pending = 0
rank sending = 1
rank sent = 2
rank _ = 3

-- What a statement may do to a row: its number, device, command, payload and key stay, its state
-- moves forward, and a row at its end does not change at all.
pub record Follows (r r' : Row) : Type 0 where
  pub same_id : r'.id ≡ r.id
  pub same_device : r'.device ≡ r.device
  pub same_command : r'.command ≡ r.command
  pub same_payload : r'.payload ≡ r.payload
  pub same_key : r'.correlation_key ≡ r.correlation_key
  pub forward : rank r.status ≤ rank r'.status
  pub at_end : terminal r.status ≡ true → r' ≡ r

pub Follows-refl : (r : Row) → Follows r r
unfolding rank
Follows-refl r = record {
  same_id = refl;
  same_device = refl;
  same_command = refl;
  same_payload = refl;
  same_key = refl;
  forward = ground arith;
  at_end = λ _. refl;
}

pub Follows-trans : {a b c : Row} → Follows a b → Follows b c → Follows a c
Follows-trans {a} {b} {c} p q = record {
  same_id = cc (p.same_id, q.same_id);
  same_device = cc (p.same_device, q.same_device);
  same_command = cc (p.same_command, q.same_command);
  same_payload = cc (p.same_payload, q.same_payload);
  same_key = cc (p.same_key, q.same_key);
  forward = ground (arith, p.forward, q.forward);
  at_end = λ h. ground (arith, p.at_end h, q.at_end);
}

ahead :
    (x y : Row)
    → (y.id ≡ x.id)
      × (y.device ≡ x.device)
      × (y.command ≡ x.command)
      × (y.payload ≡ x.payload)
      × (y.correlation_key ≡ x.correlation_key)
    → rank x.status ≤ rank y.status
    → terminal x.status ≡ false
    → Follows x y
ahead x y (a, b, c, d, e) le going = record {
  same_id = a;
  same_device = b;
  same_command = c;
  same_payload = d;
  same_key = e;
  forward = le;
  at_end = λ h. cc;
}

ends-rank : (s : Status) → terminal s ≡ true → rank s ≡ 3
unfolding rank terminal
ends-rank s h = ground arith

rank-le : (s : Status) → rank s ≤ 3
unfolding rank
rank-le s = ground arith

pub set_sending-Follows : (x : Row) → is_pending x.status ≡ true → Follows x (set_sending x)
unfolding rank terminal
set_sending-Follows x e = ahead x _ (refl, refl, refl, refl, refl) (ground arith) (ground arith)

pub set_sent-Follows :
    (now limit : Time) (x : Row) → is_unsent x.status ≡ true → Follows x (set_sent now limit x)
unfolding rank terminal
set_sent-Follows now limit x e =
    ahead x _ (refl, refl, refl, refl, refl) (ground arith) (ground arith)

pub set_acknowledged-Follows :
    (now : Time) (response : Bytes) (x : Row)
    → is_open x.status ≡ true
    → Follows x (set_acknowledged now response x)
unfolding rank terminal
set_acknowledged-Follows now response x e =
    ahead x _ (refl, refl, refl, refl, refl) (ground arith) (ground arith)

pub set_final-Follows :
    (status : Status) (reason : Reason) (x : Row)
    → terminal status ≡ true
    → terminal x.status ≡ false
    → Follows x (set_final status reason x)
set_final-Follows status reason x ending e =
    ahead x (set_final status reason x) (refl, refl, refl, refl, refl)
      (ground (arith, ends-rank status ending, rank-le x.status)) e

pub set_timeout-Follows : (now : Time) (x : Row) → overdue now x ≡ true → Follows x (set_timeout x)
unfolding terminal
set_timeout-Follows now x e = set_final-Follows timeout _ x (ground arith) (ground arith)
