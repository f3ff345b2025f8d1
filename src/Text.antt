-- ===== src/Text.antt =====
-- Text: how values are written (src/write.c, src/builtin/tostring.c), scanned (src/scan.c) and read
-- (src/factor.c).
pub mod Chars
pub mod Writer
pub mod Stringify
pub mod Source
pub mod Symbol
pub mod Interpolate
pub mod Scan
pub mod Reader
pub mod Literals
pub mod Factor
pub mod Getch
pub mod Words
pub mod Numerals
pub mod Names
pub mod Quotes
pub mod Spells
pub mod ReadBack
pub mod Accepts
pub mod Readable
pub mod Quoting
pub mod SetText
pub mod SetWriter
pub mod Stringified
pub mod Written
pub mod RoundTrip
pub mod Stuck
pub mod Left
pub mod Returns
pub mod Loops
pub mod Kept
pub mod Pushed
pub mod Pushes
