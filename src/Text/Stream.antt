-- ===== src/Text/Stream.antt =====
-- What the program uses of `std::istream`: the input that is left, the state flags, the number base,
-- and `peek`, `get` and the scans of util.h on them.
use photesthesis.Shared.{
  ℕ, Bool, true, false, not, ◌&&◌, ◌||◌, [], ◌∷◌, Option, none, some, leb, ◌==◌, if◌then◌else◌,
}
use photesthesis.Symbol.{Bytes}

-- `rest` is what the buffer still holds; `eof` and `fail` are the state bits; `hex` is the base that
-- the manipulator `std::hex` sets.
pub record Stream : Type 0 where
  pub rest : Bytes
  pub eof : Bool
  pub fail : Bool
  pub hex : Bool

-- A stream on a text, as it is opened.
abbrev pub open_text : Bytes → Stream
open_text s = record { rest = s; eof = false; fail = false; hex = false }

abbrev pub good : Stream → Bool
good s = not s.eof && not s.fail

-- `std::isspace` of the "C" locale.
unfoldable pub is_space : ℕ → Bool
is_space c = c == 32 || (leb 9 c && leb c 13)

-- `peek`: `none` is EOF. At the end of the buffer it sets eofbit, and on a stream that is not good the
-- sentry sets failbit.
unfoldable pub peek_rest : Bytes → Stream → Option ℕ × Stream
peek_rest [] s = (none, record s { eof = true })
peek_rest (c ∷ r) s = (some c, s)

unfoldable pub peek : Stream → Option ℕ × Stream
peek s = if good s then peek_rest s.rest s else (none, record s { fail = true })

-- The loop `while (good && isspace(peek)) get`: what is left, and whether the end was met.
unfoldable pub skip_spaces : Bytes → Bytes × Bool
skip_spaces [] = ([], true)
skip_spaces (c ∷ r) = if is_space c then skip_spaces r else (c ∷ r, false)

-- `scanWhitespace`.
unfoldable pub scan_whitespace : Stream → Stream
scan_whitespace s =
    let left = skip_spaces s.rest in if good s then record s { rest = left.0; eof = left.1 } else s

-- The loop `while (good && p(peek)) get` on characters that pass a test: those taken, and the rest.
unfoldable pub take_run : (ℕ → Bool) → Bytes → Bytes × Bytes
take_run p [] = ([], [])
take_run p (c ∷ r) = let more = take_run p r in if p c then (c ∷ more.0, more.1) else ([], c ∷ r)

-- The end of the buffer was looked at.
abbrev pub is_end : Bytes → Bool
is_end [] = true
is_end (c ∷ r) = false
