-- ===== src/Providers.antt =====
-- providers/provider.utils.ts: the choice among the registered providers.
pub mod Pem
pub mod Certificate
pub mod Imports
use vcknots.Common.{Bool, List, Option, String, [], if◌then◌else◌, none, some, ◌+ˢ◌, ◌∷◌}
use vcknots.Errors.{provider_not_found}
use vcknots.Flow.{Flow, or_throw}

-- `candidates.find((it) => it.canHandle(u))`
unfoldable pub find_provider : {P : Type 0} → (P → Bool) → List P → Option P
find_provider handles [] = none
find_provider handles (p ∷ ps) = if handles p then some p else find_provider handles ps

-- `selectProvider`, with the text of `u`.
abbrev pub select_provider : {S P : Type 0} → (P → Bool) → List P → String → Flow S P
select_provider handles candidates u =
    or_throw (find_provider handles candidates) provider_not_found
      ("No provider found which can handle: " +ˢ u)
