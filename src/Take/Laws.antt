-- ===== src/Take/Laws.antt =====
-- What is relied on of a data reader: it holds a queue of samples, and a take gives the first one.
-- `store` is what taking a sample makes of the argument; a sample without data leaves it.
use rmw_fastrtps.Prelude.{◌≡◌, true, false, none, some, List, [], ◌∷◌}
use rmw_fastrtps.Take.{SampleInfo, DataReader}

pub record Sample (Message : Type 0) : Type 0 where
  pub info : SampleInfo
  pub message : Message

pub record ReaderLaws {Message R : Type 0} (reader : DataReader Message R) : Type 0 where
  pub queue : R → List (Sample Message)
  pub advance : R → R
  pub store : Sample Message → Message → Message
  pub empty : (m : Message) (r : R) → queue r ≡ [] → reader.take m r ≡ none
  pub next :
      (m : Message) (r : R) (s : Sample Message) (rest : List (Sample Message))
      → queue r ≡ s ∷ rest
      → reader.take m r ≡ some (s.info, store s m, advance r)
  pub advanced :
      (r : R) (s : Sample Message) (rest : List (Sample Message))
      → queue r ≡ s ∷ rest
      → queue (advance r) ≡ rest
  pub no_data : (s : Sample Message) (m : Message) → s.info.valid_data ≡ false → store s m ≡ m

-- Deserialization overwrites the whole message.
abbrev pub IsOverwriting :
    {Message R : Type 0} {reader : DataReader Message R} → ReaderLaws reader → Type 0
IsOverwriting {Message} laws =
    (s : Sample Message) (m : Message) → s.info.valid_data ≡ true → laws.store s m ≡ s.message
