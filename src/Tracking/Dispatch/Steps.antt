-- ===== src/Tracking/Dispatch/Steps.antt =====
-- Any sequence of calls of the ingestor: messages, sweeps, ends of sessions, invalid traffic, and the
-- changes of registrations that empty the caches.
use farbo_rastreamento.Prelude.{ℕ, false, Option, none, [], ◌≡◌}
use farbo_rastreamento.Prelude.Words.{Bytes}
use farbo_rastreamento.Protocols.Floats.{FloatOps}
use farbo_rastreamento.Protocols.Message.{TrackerMessage}
use farbo_rastreamento.Tcp.Session.{Identity}
use farbo_rastreamento.Tracking.Dispatch.{
  Ingestor, Site, touches, invalidate_device, invalidate_vehicles, handle_message, handle_invalid,
  handle_disconnect, sweep,
}

-- The start of the server, with any rows in the database, and what follows it.
module _ {F : Type 0} (G : Type 0) ⦃fl : FloatOps F⦄ where
  pub data Reach : Ingestor F → Type 0 where
    started : (s : Ingestor F) → s.device_cache ≡ [] → s.last_touch ≡ (λ id. none) → Reach s
    message :
        (site : Site F G) (s : Ingestor F) (who : Identity) (msg : TrackerMessage F)
        → site.is_down touches ≡ false
        → Reach s
        → Reach (handle_message site s who msg).0
    periodic : (site : Site F G) (s : Ingestor F) → Reach s → Reach (sweep site s)
    invalid :
        (site : Site F G) (s : Ingestor F) (who : Identity) (payload protocol reason : Bytes)
        → Reach s
        → Reach (handle_invalid site s who payload protocol reason)
    ended :
        (site : Site F G) (s : Ingestor F) (protocol : Bytes) (id : Option ℕ)
        → Reach s
        → Reach (handle_disconnect site s protocol id)
    edited_device :
        (site : Site F G) (s : Ingestor F) (imei : Bytes)
        → Reach s
        → Reach (invalidate_device site imei s)
    edited_vehicles :
        (site : Site F G) (s : Ingestor F) → Reach s → Reach (invalidate_vehicles site s)
