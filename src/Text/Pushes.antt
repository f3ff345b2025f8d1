-- ===== src/Text/Pushes.antt =====
-- What readfactor and readterm of src/factor.c push on the stack.
use joy.Syntax.{Factor}
use joy.Text.Symbol.{Symbol}
use joy.Text.Reader.{Reader}
use joy.Text.Kept.{Kept, Pushed}
