-- ===== src/Chat/Relay.antt =====
-- What of the model's stream reaches the client.
use instance_lib.Prelude.{
  append_assoc, sym, refl, ap, ◌∙◌, true, ◌⊎◌, ◌≢◌, [], ◌++◌, All, ◌∷◌, ◌≡◌, Bytes, List,
}
use instance_lib.State.{contains_token}
use instance_lib.Chat.{Frame, failed, no_data, chunk, Turn, relay, revoked_frame}

-- The data of the model's stream.
abbrev pub data_of : Frame → List Bytes
data_of failed = []
data_of no_data = []
data_of (chunk data') = data' ∷ []

pub chunks : List Turn → List Bytes
chunks [] = []
chunks (turn ∷ turns) = data_of turn.frame ++ chunks turns

-- At every turn the stream is whole, the bearer is live and the client reads.
abbrev pub IsSmooth : Bytes → List Turn → Type 0
IsSmooth token = All (λ (turn : Turn).
    (turn.frame ≢ failed) × (contains_token token turn.members ≡ true) × (turn.reads ≡ true))

pub relay_step :
    (token : Bytes) (turn : Turn) (turns : List Turn)
    → turn.frame ≢ failed
    → contains_token token turn.members ≡ true
    → turn.reads ≡ true
    → relay token (turn ∷ turns) ≡ data_of turn.frame ++ relay token turns
unfolding relay
relay_step token turn turns h live reads = by_frame turn.frame refl
  where
    by_frame :
        (f : Frame)
        → turn.frame ≡ f
        → relay token (turn ∷ turns) ≡ data_of turn.frame ++ relay token turns
    by_frame failed e = absurd (h e)
    by_frame no_data e = rw (e, relay)
    by_frame (chunk data') e = rw (e, relay, live, reads)

pub relay_smooth :
    (token : Bytes) (before rest : List Turn)
    → IsSmooth token before
    → relay token (before ++ rest) ≡ chunks before ++ relay token rest
unfolding chunks
relay_smooth token [] rest h = refl
relay_smooth token (turn ∷ before) rest ((whole, live, reads), h) =
    relay_step token turn (before ++ rest) whole live reads
    ∙ ap (λ out. data_of turn.frame ++ out) (relay_smooth token before rest h)
    ∙ sym (append_assoc (data_of turn.frame) (chunks before) (relay token rest))

-- Nothing, or the one frame that says that the session was revoked.
abbrev pub IsCut : List Bytes → Type 0
IsCut out = (out ≡ []) ⊎ (out ≡ revoked_frame ∷ [])
