-- ===== src/Core/VaultRegistry.antt =====
-- src/core/vault_registry.rs: the names of vaults. A path is its text, as a user may give it;
-- loading and saving the registry go through a TOML library and the disk.
use okf_mcp_rs.Prelude.{Text, Option, none, some, Result, ok, err}
use okf_mcp_rs.Prelude.Assoc.{Assoc, lookup}

pub record VaultEntry : Type 0 where
  pub path : Text
  pub description : Option Text

pub record VaultRegistry : Type 0 where
  pub default : Option Text
  pub vaults : Assoc VaultEntry

pub data RegistryError : Type 0 where
  no_vault : RegistryError
  not_registered : Text → RegistryError

unfoldable pub resolve : VaultRegistry → Text → Text
resolve registry name_or_path = elim (lookup name_or_path registry.vaults) [
  | none ↦ name_or_path
  | some entry ↦ entry.path
]

unfoldable pub registered_path : VaultRegistry → Text → Result RegistryError Text
registered_path registry name = elim (lookup name registry.vaults) [
  | none ↦ err (not_registered name)
  | some entry ↦ ok entry.path
]

unfoldable pub default_path : VaultRegistry → Result RegistryError Text
default_path registry = elim registry.default [
  | none ↦ err no_vault
  | some name ↦ registered_path registry name
]
