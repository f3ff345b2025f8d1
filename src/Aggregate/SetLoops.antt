-- ===== src/Aggregate/SetLoops.antt =====
-- The loops of src/builtin/aggregate.c over the 64 bits of a set: `w` rounds are left, `i` is the
-- bit of the next one.
use joy.Prelude.{ℕ, zero, suc, ◌+◌, ◌-◌, ◌/◌, if◌then◌else◌, ◌==◌, ltb, Option, none, some}
use joy.Bits.{test, is_odd, single, bit_or, digit}

-- while (!(set & 1 << i)) i++, on the bits that are left
unfoldable pub lowest : ℕ → ℕ → ℕ
lowest zero a = 0
lowest (suc w) a = let further = suc (lowest w (a / 2)) in if is_odd a then 0 else further

unfoldable pub count_members : ℕ → ℕ → ℕ
count_members zero a = 0
count_members (suc w) a = digit (is_odd a) + count_members w (a / 2)

-- The member that `indx` others precede.
unfoldable pub nth_member : ℕ → ℕ → ℕ → ℕ → Option ℕ
unfolding test
nth_member zero i indx a = none
nth_member (suc w) i indx a =
    let skip = nth_member w (i + 1) (indx - 1) a in
    let pass = nth_member w (i + 1) indx a in
    if test i a then (if indx == 0 then some i else skip) else pass

-- The members but for the first n are added to `acc`.
unfoldable pub drop_set : ℕ → ℕ → ℕ → ℕ → ℕ → ℕ
unfolding test bit_or single
drop_set zero i n a acc = acc
drop_set (suc w) i n a acc =
    let keep = drop_set w (i + 1) n a (bit_or acc (single i)) in
    let skip = drop_set w (i + 1) (n - 1) a acc in
    let pass = drop_set w (i + 1) n a acc in
    if test i a then (if ltb n 1 then keep else skip) else pass

-- The first n members are added to `acc`.
unfoldable pub take_set : ℕ → ℕ → ℕ → ℕ → ℕ → ℕ
unfolding test bit_or single
take_set zero i n a acc = acc
take_set (suc w) i n a acc =
    let keep = take_set w (i + 1) (n - 1) a (bit_or acc (single i)) in
    let pass = take_set w (i + 1) n a acc in if n == 0 then acc else if test i a then keep else pass
