-- ===== src/Action/Registry.antt =====
-- internal/action/registry.go. The lock and the process-global default registry are left out: a
-- registry is a value.
use reactive_policy.Common.{String, [], Option, none, some, Assoc, lookup, insert}
use reactive_policy.Action.Types.{Plugin}

module _ {W : Type 0} where
  -- NewRegistry
  abbrev pub new_registry : Assoc (Plugin W)
  new_registry = []

  -- Registry.Lookup; `none` is nil
  unfoldable pub lookup_plugin : Assoc (Plugin W) → String → Option (Plugin W)
  lookup_plugin plugins name = lookup name plugins

  -- Registry.Register; `none` is the panic on a name that is taken
  unfoldable pub register : Plugin W → Assoc (Plugin W) → Option (Assoc (Plugin W))
  register a plugins = elim (lookup a.name plugins) [
    | some taken ↦ none
    | none ↦ some (insert a.name a plugins)
  ]
