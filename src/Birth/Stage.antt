-- ===== src/Birth/Stage.antt =====
-- The stages and the genesis paths of crates/orion-birth/src/stages.rs.
use orion_dock.Prelude.{
  ℕ, ◌+◌, String, ◌≡◌, refl, sym, ap, ◌↔◌, Bool, true, false, Option, none, some, arith, eq_iff,
  if◌then◌else◌, ◌==◌,
}
use mathlib.Core.Option.{some-injective}

pub data BirthStage : Type 0 where
  darkness ignition connectivity genesis emergence : BirthStage

unfoldable pub name : BirthStage → String
name BirthStage.darkness = "Darkness"
name BirthStage.ignition = "Ignition"
name BirthStage.connectivity = "Connectivity"
name BirthStage.genesis = "Genesis"
name BirthStage.emergence = "Emergence"

unfoldable pub next : BirthStage → Option BirthStage
next BirthStage.darkness = some BirthStage.ignition
next BirthStage.ignition = some BirthStage.connectivity
next BirthStage.connectivity = some BirthStage.genesis
next BirthStage.genesis = some BirthStage.emergence
next BirthStage.emergence = none

unfoldable pub from_name : String → Option BirthStage
from_name s =
    if s == "Darkness"
    then some BirthStage.darkness
    else if s == "Ignition"
    then some BirthStage.ignition
    else if s == "Connectivity"
    then some BirthStage.connectivity
    else if s == "Genesis"
    then some BirthStage.genesis
    else if s == "Emergence"
    then some BirthStage.emergence
    else none

-- `==` on stages
abbrev pub is_stage : BirthStage → BirthStage → Bool
is_stage BirthStage.darkness BirthStage.darkness = true
is_stage BirthStage.ignition BirthStage.ignition = true
is_stage BirthStage.connectivity BirthStage.connectivity = true
is_stage BirthStage.genesis BirthStage.genesis = true
is_stage BirthStage.emergence BirthStage.emergence = true
is_stage _ _ = false

pub data SoulCrystallizationDepth : Type 0 where
  quick_start conversation deep_dive : SoulCrystallizationDepth

pub data DepthLevel : Type 0 where
  quick_start conversation deep_dive : DepthLevel

unfoldable pub depth_to_crystallization_depth : SoulCrystallizationDepth → DepthLevel
depth_to_crystallization_depth SoulCrystallizationDepth.quick_start = DepthLevel.quick_start
depth_to_crystallization_depth SoulCrystallizationDepth.conversation = DepthLevel.conversation
depth_to_crystallization_depth SoulCrystallizationDepth.deep_dive = DepthLevel.deep_dive

pub data GenesisPath : Type 0 where
  quick_start direct soul_forge : GenesisPath
  soul_crystallization : SoulCrystallizationDepth → GenesisPath

-- How far a stage is from the first one.
abbrev pub rank : BirthStage → ℕ
rank BirthStage.darkness = 0
rank BirthStage.ignition = 1
rank BirthStage.connectivity = 2
rank BirthStage.genesis = 3
rank BirthStage.emergence = 4

-- The next stage is one further.
pub next-rank : (t u : BirthStage) → next t ≡ some u → rank u ≡ rank t + 1
unfolding next
next-rank BirthStage.darkness u h = ap rank (sym (some-injective BirthStage.ignition u h))
next-rank BirthStage.ignition u h = ap rank (sym (some-injective BirthStage.connectivity u h))
next-rank BirthStage.connectivity u h = ap rank (sym (some-injective BirthStage.genesis u h))
next-rank BirthStage.genesis u h = ap rank (sym (some-injective BirthStage.emergence u h))
next-rank BirthStage.emergence u h = cc

from_name-name : (t : BirthStage) → from_name (name t) ≡ some t
unfolding from_name name
from_name-name BirthStage.darkness = refl
from_name-name BirthStage.ignition = refl
from_name-name BirthStage.connectivity = refl
from_name-name BirthStage.genesis = refl
from_name-name BirthStage.emergence = refl

name-from_name : (s : String) (t : BirthStage) → from_name s ≡ some t → s ≡ name t
unfolding from_name name
name-from_name s t h = ground (
  arith,
  eq_iff s "Darkness",
  eq_iff s "Ignition",
  eq_iff s "Connectivity",
  eq_iff s "Genesis",
  eq_iff s "Emergence",
)

-- A stage is read from exactly the text that it is saved as.
pub from_name_iff : (s : String) (t : BirthStage) → (from_name s ≡ some t) ↔ (s ≡ name t)
from_name_iff s t = (name-from_name s t, λ e. rw e (from_name-name t))
