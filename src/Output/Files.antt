-- ===== src/Output/Files.antt =====
-- The file system as src/output.rs uses it: each call succeeds and leaves its effect, or fails. The
-- outcomes of the coming calls are part of the state, and a call succeeds once they are used up.
pub mod Plan
use new_p2p_crawler.Output.Json.{Json}
use new_p2p_crawler.Io.{IoError, Result, ok, err}
use new_p2p_crawler.Prelude.{Text, Option, none, some, List, [], ◌∷◌, ◌++◌}

-- A path by its components.
abbrev pub FilePath : Type 0
FilePath = List Text

abbrev pub join : FilePath → Text → FilePath
join dir file = dir ++ (file ∷ [])

pub data Effect : Type 0 where
  made_dirs made_dir : FilePath → Effect
  created : FilePath → Effect
  wrote_row : FilePath → List Text → Effect
  wrote_json : FilePath → Json → Effect
  flushed synced synced_dir read_back : FilePath → Effect
  renamed : FilePath → FilePath → Effect

-- `anyhow::Error`, and the panic of `expect`.
pub data Failure : Type 0 where
  io : IoError → Failure
  serde : Text → Failure
  panicked : Text → Failure

pub record Files : Type 0 where
  pub outcomes : List (Option IoError)
  pub effects : List Effect

abbrev pub Program : Type 0 → Type 0
Program A = Files → Result Failure A × Files

abbrev pub then_run :
    {A B : Type 0} → (A → Program B) → Result Failure A × Files → Result Failure B × Files
then_run k (ok a, f) = k a f
then_run k (err e, f) = (err e, f)

infixl 5 ◌>>=◌ ◌>>◌
abbrev pub ◌>>=◌ : {A B : Type 0} → Program A → (A → Program B) → Program B
◌>>=◌ m k f = then_run k (m f)

abbrev pub ◌>>◌ : {A B : Type 0} → Program A → Program B → Program B
m >> k = m >>= λ _. k

abbrev pub done : Program (Unit {0})
done f = (ok tt, f)

abbrev pub give : {A : Type 0} → A → Program A
give a f = (ok a, f)

abbrev pub fail : {A : Type 0} → Failure → Program A
fail e f = (err e, f)

abbrev pub next_outcome :
    Effect → List Effect → List (Option IoError) → Result Failure (Unit {0}) × Files
next_outcome e effects [] = (ok tt, record { outcomes = []; effects = effects ++ (e ∷ []) })
next_outcome e effects (none ∷ rest) =
    (ok tt, record { outcomes = rest; effects = effects ++ (e ∷ []) })
next_outcome e effects (some x ∷ rest) = (err (io x), record { outcomes = rest; effects = effects })

-- One call, with `?`.
unfoldable pub act : Effect → Program (Unit {0})
act e f = next_outcome e f.effects f.outcomes
