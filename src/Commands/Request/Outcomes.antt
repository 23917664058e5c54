-- ===== src/Commands/Request/Outcomes.antt =====
-- service.go: how a request ends when its checks pass, and what a refused one leaves behind.
use farbo_rastreamento.Prelude.{false, none, some, ◌∷◌, ◌≡◌, refl, ap, ◌∙◌, subst, ok}
use farbo_rastreamento.Prelude.Words.{Bytes}
use farbo_rastreamento.Protocols.Floats.{FloatOps}
use farbo_rastreamento.Protocols.Message.{CommandType}
use farbo_rastreamento.Commands.Store.{
  failed, terminal, no_reason, Statement, mark_sent_of, mark_final_of, set_sending, set_final,
}
use farbo_rastreamento.Commands.Service.{Request, Adapter, Env, World, SendFailure}
use farbo_rastreamento.Commands.Request.{
  failure_reason, delivered, encode_and_send, guard, guarded, send_by, send_typed, send,
}
use farbo_rastreamento.Commands.Request.Safety.{transmissions}
use farbo_rastreamento.Commands.Request.Delivery.{
  command_of, Gives, sent_row, delivered-sent, delivered-failed, Delivers, created_row,
  encode_and_send-Gives,
}

module _ {F : Type 0} ⦃fl : FloatOps F⦄ (env : Env F) where
  -- A request that passes every check before the socket.
  pub record Passes (req : Request) (typ : CommandType) (payload : Bytes) : Type 0 where
    pub adapter : Adapter
    pub working : (s : Statement) → env.is_down s ≡ false
    pub known : req.typ ≡ some typ
    pub allowed : guard env req.device typ ≡ no_reason
    pub speaks : env.by_name req.device.protocol ≡ some adapter
    pub encoded : adapter.encode (command_of env req typ) ≡ ok payload

  send-Passes :
      (req : Request) (typ : CommandType) (payload : Bytes) (w : World) (p : Passes req typ payload)
      → send env req w ≡ encode_and_send env req typ p.adapter w
  unfolding send send_typed send_by guarded
  send-Passes req typ payload w p =
      ap (λ o. send_typed env req o w) p.known
      ∙ ap (λ o. send_by env req typ o w) p.speaks
      ∙ ap (λ why. guarded env req typ p.adapter why w) p.allowed

  -- A request that passes every check, while the database works and the socket takes the payload,
  -- gives back the row of the command, which is stored as the newest: sent, under the key that was
  -- put in the packet, with its payload as readable text and the limit for the answer set. What the
  -- socket took is the packet of that command, once.
  pub send-sent :
      (req : Request) (typ : CommandType) (payload : Bytes) (w : World)
      → Passes req typ payload
      → env.deliver req.device.imei payload ≡ none
      → Gives
          (sent_row env (set_sending (created_row env req typ payload w.table)))
          ((req.device.imei, payload) ∷ transmissions w.trace)
          (send env req w)
  unfolding Delivers created_row
  send-sent req typ payload w p reached =
      let row = created_row env req typ payload w.table in
      rw (send-Passes req typ payload w p) (
        encode_and_send-Gives env req typ p.adapter payload w _ _ p.working p.encoded
          (λ v same found.
            subst
              (λ o. Gives (sent_row env (set_sending row)) ((req.device.imei, payload) ∷ o) (
                delivered env req payload (set_sending row) (env.deliver req.device.imei payload)
                  v))
              same
              (rw reached (
                delivered-sent env req payload (set_sending row) v (p.working mark_sent_of) refl
                  found))))

  -- When the socket does not take it, the row that comes back and is stored has failed with the
  -- socket's reason, and nothing is transmitted.
  pub send-failed :
      (req : Request) (typ : CommandType) (payload : Bytes) (e : SendFailure) (w : World)
      → Passes req typ payload
      → env.deliver req.device.imei payload ≡ some e
      → Gives
          (set_final failed
            (failure_reason e)
            (set_sending (created_row env req typ payload w.table)))
          (transmissions w.trace)
          (send env req w)
  unfolding Delivers created_row terminal
  send-failed req typ payload e w p broke =
      let row = created_row env req typ payload w.table in
      rw (send-Passes req typ payload w p) (
        encode_and_send-Gives env req typ p.adapter payload w _ _ p.working p.encoded
          (λ v same found.
            subst
              (λ o. Gives (set_final failed (failure_reason e) (set_sending row)) o (
                delivered env req payload (set_sending row) (env.deliver req.device.imei payload)
                  v))
              same
              (rw broke (
                delivered-failed env req payload (set_sending row) e v (p.working mark_final_of)
                  refl found))))
