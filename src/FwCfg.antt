-- ===== src/FwCfg.antt =====
-- fw_cfg.c: every access panics. main does not call fw_cfg_init.
use xemu.Base.{ℕ, panicked, M}
use xemu.Space.{Params}

unfoldable pub fw_cfg_read : {S : Type 0} → ℕ → ℕ → Params → M S ℕ
fw_cfg_read addr size _ s = panicked

unfoldable pub fw_cfg_write : {S : Type 0} → ℕ → ℕ → ℕ → Params → M S ℕ
fw_cfg_write addr value size _ s = panicked
