-- ===== src/Chunking/Utf8.antt =====
-- The state of `codecs.getincrementaldecoder("utf-8")`: how many bytes of a character are still
-- missing, and the range in which the next of them must lie. A byte that cannot continue the text
-- raises UnicodeDecodeError, here `none`.
use bbd_os.Prelude.{ℕ, ◌-◌, Option, none, some, Bool, List, [], ◌∷◌, ◌==◌, ◌&&◌, if◌then◌else◌, leb}

pub record Utf8State : Type 0 where
  pub missing : ℕ
  pub low : ℕ
  pub high : ℕ

abbrev pub clean : Utf8State
clean = record { missing = 0; low = 0x80; high = 0xbf }

abbrev pub is_clean : Utf8State → Bool
is_clean s = s.missing == 0

abbrev within : ℕ → ℕ → ℕ → Bool
within low high byte = leb low byte && leb byte high

abbrev expect : ℕ → ℕ → ℕ → Option Utf8State
expect missing low high = some (record { missing = missing; low = low; high = high })

lead : ℕ → Option Utf8State
lead byte =
    if within 0 0x7f byte
    then some clean
    else if within 0xc2 0xdf byte
    then expect 1 0x80 0xbf
    else if byte == 0xe0
    then expect 2 0xa0 0xbf
    else if byte == 0xed
    then expect 2 0x80 0x9f
    else if within 0xe1 0xef byte
    then expect 2 0x80 0xbf
    else if byte == 0xf0
    then expect 3 0x90 0xbf
    else if within 0xf1 0xf3 byte
    then expect 3 0x80 0xbf
    else if byte == 0xf4
    then expect 3 0x80 0x8f
    else none

unfoldable pub feed : Utf8State → ℕ → Option Utf8State
unfolding lead
feed s byte =
    if s.missing == 0
    then lead byte
    else if within s.low s.high byte
    then expect (s.missing - 1) 0x80 0xbf
    else none

unfoldable pub decode : Utf8State → List ℕ → Option Utf8State
unfolding feed
decode s [] = some s
decode s (byte ∷ bytes) = elim (feed s byte) [ none ↦ none | some s' ↦ decode s' bytes ]
