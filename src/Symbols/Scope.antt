-- ===== src/Symbols/Scope.antt =====
-- Private sections and modules: src/module.c, whose static variables and stacks are a `Scope`.
use joy.Prelude.{
  ℕ, zero, suc, ◌-◌, Bool, true, false, ◌==◌, if◌then◌else◌, List, Option, none, some,
}
use joy.Symbols.Names.{has_dot, dotted, decimal}

pub record Module : Type 0 where
  pub name : List ℕ
  pub hide : ℕ

-- The indices `hide_index`, `module_index` and the `hide` of a module are one more than in the
-- source, which starts them at -1; so they are the number of open sections.
pub record Scope : Type 0 where
  pub hide_index : ℕ
  pub hide_count : ℕ
  pub module_index : ℕ
  pub inside_hide : Bool
  pub been_inside : Bool
  pub hide_stack : ℕ → ℕ
  pub module_stack : ℕ → Module

-- DISPLAYMAX
abbrev pub display_max : ℕ
display_max = 10

-- stack[i] = v
abbrev pub store {ℓ} : {A : Type ℓ} → (ℕ → A) → ℕ → A → ℕ → A
store f i v j = if j == i then v else f j

-- The variables that savemod saves and undomod restores.
pub record Saved : Type 0 where
  pub hide : ℕ
  pub modl : ℕ
  pub hcnt : ℕ

abbrev pub savemod : Scope → Saved
savemod s = record { hide = s.hide_index; modl = s.module_index; hcnt = s.hide_count }

abbrev pub undomod : Saved → Scope → Scope
undomod k s = record s { hide_index = k.hide; module_index = k.modl; hide_count = k.hcnt }

-- `none` stands for `execerror(env, "index", "display")`.
unfoldable pub initmod : List ℕ → Scope → Option Scope
initmod name s =
    if s.module_index == display_max
    then none
    else some (record s {
      module_index = suc s.module_index;
      module_stack =
          store s.module_stack s.module_index (record { name = name; hide = s.hide_index });
    })

unfoldable pub initpriv : Scope → Option Scope
initpriv s =
    if s.hide_index == display_max
    then none
    else some (record s {
      hide_index = suc s.hide_index;
      hide_count = suc s.hide_count;
      hide_stack = store s.hide_stack s.hide_index (suc s.hide_count);
      inside_hide = true;
    })

unfoldable pub stoppriv : Scope → Scope
stoppriv s = record s { been_inside = true; inside_hide = false }

unfoldable pub exitpriv : Scope → Scope
exitpriv s =
    if s.been_inside then record s { been_inside = false; hide_index = s.hide_index - 1 } else s

unfoldable pub exitmod : Scope → Scope
unfolding exitpriv
exitmod s =
    let t = record s { module_index = s.module_index - 1 } in
    if t.module_index == 0 then exitpriv t else t

-- The element below the top of a stack; `none` stands for the read at index -1.
abbrev pub top {ℓ} : {A : Type ℓ} → ℕ → (ℕ → A) → Option A
top zero f = none
top (suc i) f = some (f i)

abbrev pub hidden_name : List ℕ → Option ℕ → Option (List ℕ)
hidden_name name none = none
hidden_name name (some k) = some (dotted (decimal k) name)

abbrev pub module_name : List ℕ → Option Module → List ℕ
module_name name none = name
module_name name (some m) = dotted m.name name

-- The name under which a definition is entered.
unfoldable pub classify : Scope → List ℕ → Option (List ℕ)
classify s name =
    if has_dot name
    then some name
    else if s.inside_hide
    then hidden_name name (top s.hide_index s.hide_stack)
    else some (module_name name (top s.module_index s.module_stack))
