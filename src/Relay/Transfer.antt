-- ===== src/Relay/Transfer.antt =====
-- The agent's side of the relay: `Chunk` of agent/internal/client/install.go and `downloadViaRelay` of
-- agent/internal/xray/install.go.
use chiral.Prelude.{
  ℕ, zero, suc, ◌+◌, Bool, true, false, ◌&&◌, String, List, [], ◌∷◌, ◌++◌, Option, none, some, ◌==◌,
  if◌then◌else◌, str_eq, length,
}
use chiral.Prelude.Int.{ℤ, pos, negsuc}
use chiral.Relay.Serve.{Refusal, Chunk}

-- What ends a wait without a reply.
pub data Ending : Type 0 where
  timed_out cancelled : Ending

-- What happens to one request: whether the stream takes it, the frames that arrive after it, and what
-- ends the wait for more.
pub record Wait : Type 0 where
  pub sent : Bool
  pub frames : List Chunk
  pub ending : Ending

pub data RelayError : Type 0 where
  stream_closed : RelayError
  cannot_relay : Refusal → RelayError
  no_reply : Ending → RelayError
  empty_chunk : ℕ → RelayError

pub data Answer : Type 0 where
  got : List ℕ → Bool → Answer
  no_answer : RelayError → Answer

abbrev pub is_offset : ℤ → ℕ → Bool
is_offset (pos n) m = n == m
is_offset (negsuc n) m = false

-- Whether a frame replies to the request for this version and offset.
abbrev pub is_reply : String → ℕ → Chunk → Bool
is_reply version offset c = str_eq c.version version && is_offset c.offset offset

abbrev pub answer : List ℕ → Bool → Option Refusal → Answer
answer bytes last none = got bytes last
answer bytes last (some why) = no_answer (cannot_relay why)

-- The loop of `Chunk`.
unfoldable pub await : String → ℕ → List Chunk → Ending → Answer
await version offset [] e = no_answer (no_reply e)
await version offset (c ∷ cs) e =
    if is_reply version offset c then answer c.bytes c.last c.error else await version offset cs e

-- `Chunk`
unfoldable pub chunk : String → ℕ → Wait → Answer
unfolding await
chunk version offset w =
    if w.sent then await version offset w.frames w.ending else no_answer stream_closed

pub data Download : Type 0 where
  downloaded : List ℕ → Download
  download_failed : RelayError → Download
  out_of_fuel : Download

-- What the loop does with an answer: it goes on at the next offset only after a chunk that has bytes.
abbrev pub after : (ℕ → List ℕ → Download) → ℕ → List ℕ → Answer → Download
after again offset written (no_answer e) = download_failed e
after again offset written (got bytes true) = downloaded (written ++ bytes)
after again offset written (got [] false) = download_failed (empty_chunk offset)
after again offset written (got (b ∷ bytes) false) =
    again (offset + length (b ∷ bytes)) (written ++ (b ∷ bytes))

-- The loop of `downloadViaRelay` on fuel; a request's offset tells which wait it meets.
unfoldable pub relay_loop : ℕ → (ℕ → Wait) → String → ℕ → List ℕ → Download
unfolding chunk
relay_loop zero waits version offset written = out_of_fuel
relay_loop (suc fuel) waits version offset written =
    after (relay_loop fuel waits version) offset written (chunk version offset (waits offset))

-- `downloadViaRelay`: what is written, if it ends well.
unfoldable pub download_via_relay : ℕ → (ℕ → Wait) → String → Download
unfolding relay_loop
download_via_relay fuel waits version = relay_loop fuel waits version 0 []
