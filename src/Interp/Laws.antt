-- ===== src/Interp/Laws.antt =====
-- The laws of concatenation: the empty program does nothing, a program and a program after it are
-- the composition of the two.
use joy.Prelude.{Bool, true, false, if◌then◌else◌}
use joy.Syntax.{Term, nil, ◌⊳◌}
use joy.Machine.Host.{Host}
use joy.Interp.{is_bad}

-- Whether a bad node stands among the nodes of a term
abbrev pub ends_early : Term → Bool
ends_early nil = false
ends_early (p ⊳ s) = if is_bad p then true else ends_early s
