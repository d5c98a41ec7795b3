-- ===== src/Save.antt =====
-- The text of plans, transcripts and the corpus file: the operators `<<` and `>>` of src/corpus.cpp, and
-- how the constructor of `Corpus` and `save` use them.
pub mod Tokens
pub mod Plans
pub mod Transcripts
pub mod Files
pub mod Reading
pub mod Lines
pub mod Labels
pub mod Texts
pub mod RoundTrip
pub mod Lengths
pub mod Loading
pub mod Flatten
pub mod Saving
pub mod Examples
use photesthesis.Shared.{if◌then◌else◌}
use photesthesis.Text.Stream.{Stream}
use photesthesis.Text.Parser.{Parsed, ok, thrown, out_of_fuel}

-- An outcome of reading from a stream that throws where failbit is set, as the constructor of `Corpus`
-- opens it: a value with the stream, an exception or a failed assertion, or a loop that the fuel did
-- not see end. Every exception ends in the one that the constructor throws.
pub data Loaded (A : Type 0) : Type 0 where
  loaded : A → Stream → Loaded A
  failed : Loaded A
  starved : Loaded A

infixl 5 ◌>>=◌
abbrev pub ◌>>=◌ : {A B : Type 0} → Loaded A → (A → Stream → Loaded B) → Loaded B
loaded a s >>= f = f a s
failed >>= f = failed
starved >>= f = starved

-- What `operator>>` of a value comes to on such a stream.
abbrev pub from_parsed : {A : Type 0} → Parsed A → Loaded A
from_parsed (ok a s) = if s.fail then failed else loaded a s
from_parsed (thrown e) = failed
from_parsed out_of_fuel = starved
