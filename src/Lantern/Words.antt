-- ===== src/Lantern/Words.antt =====
-- What a lantern says besides its observations: `SyncState`, `Farewell` and `ForgetSubject` of
-- internal/lantern/lantern.go, `pushPayload` of push.go, and the payloads of one flash. The JSON
-- encoder is a parameter and may fail.
pub mod Heard
use photinus.Prelude.{
  ℕ, ◌+◌, ◌<>◌, decimal, String, Bool, Option, none, some, List, [], ◌∷◌, ◌++◌, Time, ltb, length,
  byte_length, Dict, values, str_ltb, sort_by, if◌then◌else◌,
}
use photinus.Quorum.{Observation, subject}
use photinus.Lantern.State.{Lantern, PushRegistration}
use photinus.Lantern.Push.{push_registrations}
use photinus.Lantern.Forget.{forget_subject}
use photinus.Lantern.Gossip.{chunk_flash}
use photinus.Lantern.Receive.{Envelope, flash_v}
use photinus.Lantern.Flash.{packet_limit}

-- An envelope with nothing but its version.
empty_envelope : Envelope
empty_envelope = record {
  v = flash_v;
  obs = [];
  leave = "";
  forget = "";
  push = [];
  from = "";
  sent = none;
}

-- The envelope of one batch of a flash.
unfoldable pub batch_envelope : String → Time → List Observation → Envelope
unfolding empty_envelope
batch_envelope from sent obs = record empty_envelope { from = from; sent = some sent; obs = obs }

unfoldable pub sync_envelope : Time → Lantern → Envelope
unfolding empty_envelope
sync_envelope now l = record empty_envelope {
  from = l.id;
  sent = some now;
  obs = values l.store;
  push = values l.push_regs;
}

unfoldable pub farewell_envelope : Lantern → Envelope
unfolding empty_envelope
farewell_envelope l = record empty_envelope { leave = l.id }

unfoldable pub forget_envelope : String → String → Envelope
unfolding empty_envelope
forget_envelope check target = record empty_envelope { forget = subject check target }

unfoldable pub push_envelope : Time → Lantern → Envelope
unfolding empty_envelope
push_envelope now l = record empty_envelope {
  from = l.id;
  sent = some now;
  push = push_registrations l;
}

-- A payload of registrations goes out only if it fits a packet.
within_packet : Option String → Option String
within_packet none = none
within_packet (some payload) = if ltb 1000 (byte_length payload) then none else some payload

module _ (encode : Envelope → Option String) where
  unfoldable pub sync_state : Time → Lantern → Option String
  sync_state now l = encode (sync_envelope now l)

  -- `Farewell`: what is flashed, if the lantern has a swarm.
  unfoldable pub farewell : Bool → Lantern → Option String
  farewell attached l = if attached then encode (farewell_envelope l) else none

  -- `ForgetSubject`: the lantern forgets the subject itself, then says so.
  unfoldable pub forget_everywhere :
      Bool → String → String → Time → Lantern → Lantern × Option String
  forget_everywhere attached check target now l = (
    forget_subject (subject check target) now l,
    if attached then encode (forget_envelope check target) else none,
  )

  unfoldable pub push_payload : Time → Lantern → Option String
  unfolding within_packet
  push_payload now l =
      if ltb 0 (length (values l.push_regs))
      then within_packet (encode (push_envelope now l))
      else none

  -- The flash's chunks of the lantern's own observations.
  unfoldable pub flash_chunks :
      (Observation → Option String) → Time → Lantern → List Observation → List String
  flash_chunks encode_one now l own =
      chunk_flash encode_one (λ obs. encode (batch_envelope l.id now obs)) packet_limit own

  -- The payloads of a flash under the names by which the next flash supersedes them.
  named_chunks : ℕ → List String → List (String × String)
  named_chunks i [] = []
  named_chunks i (p ∷ ps) = ("flash/" <> decimal i, p) ∷ named_chunks (i + 1) ps

  named_push : Option String → List (String × String)
  named_push none = []
  named_push (some p) = ("push", p) ∷ []

  -- What `flash` hands to the swarm: the chunks, then the registrations.
  unfoldable pub flash_sends :
      (Observation → Option String) → Time → Lantern → List Observation → List (String × String)
  unfolding named_chunks named_push
  flash_sends encode_one now l own =
      named_chunks 0 (flash_chunks encode_one now l own) ++ named_push (push_payload now l)
