-- ===== src/Fork.antt =====
-- forks.go: the hard forks as ordered numbers, and the filter of a field that exists in some of them.
use ssz.Base.{ℕ, Bool, ◌&&◌, ◌||◌, ltb, leb}

abbrev pub Fork : Type 0
Fork = ℕ

abbrev pub fork_unknown : Fork
fork_unknown = 0

abbrev pub fork_frontier : Fork
fork_frontier = 1

abbrev pub fork_phase0 : Fork
fork_phase0 = 10

abbrev pub fork_altair : Fork
fork_altair = 13

abbrev pub fork_bellatrix : Fork
fork_bellatrix = 16

abbrev pub fork_shapella : Fork
fork_shapella = 18

abbrev pub fork_dencun : Fork
fork_dencun = 19

abbrev pub fork_pectra : Fork
fork_pectra = 20

abbrev pub fork_future : Fork
fork_future = 21

pub record ForkFilter : Type 0 where
  pub added : Fork
  pub removed : Fork

-- The test with which every OnFork function begins.
unfoldable pub is_absent : Fork → ForkFilter → Bool
is_absent fork filter =
    ltb fork filter.added || (ltb fork_unknown filter.removed && leb filter.removed fork)
