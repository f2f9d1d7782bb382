-- ===== src/Chat/Channel/Totals.antt =====
-- What a move does to the data on its way to the client.
use instance_lib.Prelude.{
  subst, false≢true, Bytes, Bool, true, false, List, [], ◌∷◌, ◌++◌, ◌≡◌, ◌⊎◌, inl, inr, refl, sym,
  ap, ◌∙◌, append-nil, append_assoc, if◌then◌else◌, Bool-cases,
}
use instance_lib.State.{Inner, contains_token}
use instance_lib.Chat.{Frame, failed, no_data, chunk, revoked_frame}
use instance_lib.Chat.Channel.{
  Task, listening, holding, sending, stopped, Stream, after_frame, after_check, after_send, Move,
  arrives, ends, checks, sends, hangs, delivers, drops,
}

-- What the task holds for the channel.
abbrev pub flight : Task → List Bytes
flight listening = []
flight (holding data') = []
flight (sending last data') = data' ∷ []
flight stopped = []

-- What the client has got, or will get if it reads on.
abbrev pub backlog : Stream → List Bytes
backlog a = a.buffer ++ flight a.task

abbrev pub total : Stream → List Bytes
total a = a.received ++ backlog a

-- The task goes on after what it does now.
abbrev pub Active : Task → Type 0
Active listening = Unit {0}
Active (holding data') = Unit {0}
Active (sending true data') = ⊥
Active (sending false data') = Unit {0}
Active stopped = ⊥

-- What a check lets through.
abbrev pub verdict : Bytes → Bytes → Inner → Bytes
verdict token data' members = if contains_token token members then data' else revoked_frame

-- A move that checks nothing: it may drop what was in flight, and then the task has stopped.
pub record IsQuiet (a b : Stream) : Type 0 where
  pub dropped : List Bytes
  pub split : total a ≡ total b ++ dropped
  pub seen : b.seen ≡ a.seen
  pub active : Active b.task → Active a.task × (dropped ≡ [])
  pub reading : b.reading ≡ true → (a.reading ≡ true) × (dropped ≡ [])

pub record IsChecked (token : Bytes) (Sees : Inner → Type 0) (a b : Stream) : Type 0 where
  pub checked : Bytes
  pub members : Inner
  pub saw : Sees members
  pub grown : total b ≡ total a ++ verdict token checked members ∷ []
  pub seen : b.seen ≡ a.seen ++ (checked, members) ∷ []
  pub before : Active a.task
  pub reading : b.reading ≡ a.reading
  pub active : Active b.task → contains_token token members ≡ true

extended :
    (got buffer : List Bytes) (x : Bytes)
    → got ++ (buffer ++ x ∷ []) ≡ (got ++ (buffer ++ [])) ++ x ∷ []
extended got buffer x = rw (append-nil) (sym (append_assoc got buffer (x ∷ [])))

module _ (a : Stream) where
  pub total-task : (t : Task) → a.task ≡ t → total a ≡ a.received ++ (a.buffer ++ flight t)
  total-task t e = ap (λ f. a.received ++ (a.buffer ++ flight f)) e

  moves_on :
      (t t' : Task)
      → a.task ≡ t
      → flight t ≡ flight t'
      → (Active t' → Active t)
      → IsQuiet a (record a { task = t' })
  moves_on t t' e same on = record {
    dropped = [];
    split = total-task t e ∙ ap (λ f. a.received ++ (a.buffer ++ f)) same ∙ sym (append-nil _);
    seen = refl;
    active = λ h. (subst Active (sym e) (on h), refl);
    reading = λ h. (h, refl);
  }

  arrived : (frame : Frame) → a.task ≡ listening → IsQuiet a (record a { task = after_frame frame })
  arrived failed e = moves_on listening stopped e refl (λ h. tt)
  arrived no_data e = moves_on listening listening e refl (λ h. tt)
  arrived (chunk data') e = moves_on listening (holding data') e refl (λ h. tt)

  in_channel :
      (last : Bool) (data' : Bytes)
      → a.task ≡ sending last data'
      → IsQuiet a (record a { task = after_send last; buffer = a.buffer ++ data' ∷ [] })
  in_channel true data' e = record {
    dropped = [];
    split = rw (append-nil, append-nil) (total-task (sending true data') e);
    seen = refl;
    active = λ h. absurd h;
    reading = λ h. (h, refl);
  }
  in_channel false data' e = record {
    dropped = [];
    split = rw (append-nil, append-nil) (total-task (sending false data') e);
    seen = refl;
    active = λ h. (subst Active (sym e) tt, refl);
    reading = λ h. (h, refl);
  }

  hung_up :
      (last : Bool) (data' : Bytes)
      → a.task ≡ sending last data'
      → a.reading ≡ false
      → IsQuiet a (record a { task = stopped })
  hung_up last data' e gone = record {
    dropped = data' ∷ [];
    split = total-task (sending last data') e ∙ extended a.received a.buffer data';
    seen = refl;
    active = λ h. absurd h;
    reading = λ h. absurd (false≢true (sym gone ∙ h));
  }

  delivered :
      (data' : Bytes) (rest : List Bytes)
      → a.buffer ≡ data' ∷ rest
      → IsQuiet a (record a { buffer = rest; received = a.received ++ data' ∷ [] })
  delivered data' rest e = record {
    dropped = [];
    split =
        ap (λ b. a.received ++ (b ++ flight a.task)) e
        ∙ sym (append_assoc a.received (data' ∷ []) (rest ++ flight a.task))
        ∙ sym (append-nil _);
    seen = refl;
    active = λ h. (h, refl);
    reading = λ h. (h, refl);
  }

  from_holding :
      (data' x : Bytes)
      → a.task ≡ holding data'
      → a.received ++ (a.buffer ++ x ∷ []) ≡ total a ++ x ∷ []
  from_holding data' x e =
      extended a.received a.buffer x
      ∙ sym (ap (λ out. out ++ x ∷ []) (total-task (holding data') e))

  checked_as :
      (token data' : Bytes) (members : Inner)
      → a.task ≡ holding data'
      → total (record a {
        task = after_check token data' members;
        seen = a.seen ++ (data', members) ∷ [];
      })
        ≡ total a ++ verdict token data' members ∷ []
  checked_as token data' members e = elim (Bool-cases (contains_token token members)) [
    | inl live ↦ rw live (from_holding data' data' e)
    | inr dead ↦ rw dead (from_holding data' revoked_frame e)
  ]

after_check-Active :
    (token data' : Bytes) (members : Inner)
    → Active (after_check token data' members)
    → contains_token token members ≡ true
after_check-Active token data' members h = elim (Bool-cases (contains_token token members)) [
  | inl live ↦ live
  | inr dead ↦
      absurd (
        subst (λ ok. Active (if ok then sending false data' else sending true revoked_frame)) dead
          h)
]

module _ (token : Bytes) (Sees : Inner → Type 0) where
  pub Move-cases : (a b : Stream) → Move token Sees a b → IsQuiet a b ⊎ IsChecked token Sees a b
  Move-cases a _ (arrives frame e) = inl (arrived a frame e)
  Move-cases a _ (ends e) = inl (moves_on a listening stopped e refl (λ h. tt))
  Move-cases a _ (checks data' members saw e) = inr (record {
    checked = data';
    members = members;
    saw = saw;
    grown = checked_as a token data' members e;
    seen = refl;
    before = subst Active (sym e) tt;
    reading = refl;
    active = after_check-Active token data' members;
  })
  Move-cases a _ (sends last data' e reading room) = inl (in_channel a last data' e)
  Move-cases a _ (hangs last data' e gone) = inl (hung_up a last data' e gone)
  Move-cases a _ (delivers data' rest reading e) = inl (delivered a data' rest e)
  Move-cases a _ drops = inl (record {
    dropped = [];
    split = sym (append-nil _);
    seen = refl;
    active = λ h. (h, refl);
    reading = λ h. absurd (false≢true h);
  })
