-- ===== src/Handler/Tables/Opens.antt =====
-- Opening a table leaves no pin behind, whichever way it goes.
use fastmem_mariadb.Prelude.{ℕ, ◌≡◌, Option, none}
use fastmem_mariadb.Registry.{Registry}
use fastmem_mariadb.Registry.Wf.{RegWf}

-- A table that is opened, or is not and leaves no share in memory that was free; the pins are as before.
abbrev pub Opened : Registry → (ℕ → ℕ) → Registry × Option ℕ → Type 0
Opened r pins (r', opened) =
    RegWf r' pins × (opened ≡ none → (a : ℕ) → r.shares a ≡ none → r'.shares a ≡ none)
