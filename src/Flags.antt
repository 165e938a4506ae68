-- ===== src/Flags.antt =====
-- diffuzzer/src/abstract_fs/flags.rs: the mode flags. `OpenFlag` is not used by the program.
use diffuzzer.Prelude.{ℕ, List, String}

pub data ModeFlag : Type 0 where
  s_irwxu s_irusr s_iwusr s_ixusr s_irwxg s_irgrp s_iwgrp s_ixgrp : ModeFlag
  s_irwxo s_iroth s_iwoth s_ixoth s_isuid s_isgid s_isvtx : ModeFlag

abbrev pub Mode : Type 0
Mode = List ModeFlag

-- The discriminants, written in octal in the source.
unfoldable pub bits : ModeFlag → ℕ
bits ModeFlag.s_irwxu = 0o700
bits ModeFlag.s_irusr = 0o400
bits ModeFlag.s_iwusr = 0o200
bits ModeFlag.s_ixusr = 0o100
bits ModeFlag.s_irwxg = 0o70
bits ModeFlag.s_irgrp = 0o40
bits ModeFlag.s_iwgrp = 0o20
bits ModeFlag.s_ixgrp = 0o10
bits ModeFlag.s_irwxo = 0o7
bits ModeFlag.s_iroth = 0o4
bits ModeFlag.s_iwoth = 0o2
bits ModeFlag.s_ixoth = 0o1
bits ModeFlag.s_isuid = 0o4000
bits ModeFlag.s_isgid = 0o2000
bits ModeFlag.s_isvtx = 0o1000

-- `Display`
unfoldable pub fmt : ModeFlag → String
fmt ModeFlag.s_irwxu = "S_IRWXU"
fmt ModeFlag.s_irusr = "S_IRUSR"
fmt ModeFlag.s_iwusr = "S_IWUSR"
fmt ModeFlag.s_ixusr = "S_IXUSR"
fmt ModeFlag.s_irwxg = "S_IRWXG"
fmt ModeFlag.s_irgrp = "S_IRGRP"
fmt ModeFlag.s_iwgrp = "S_IWGRP"
fmt ModeFlag.s_ixgrp = "S_IXGRP"
fmt ModeFlag.s_irwxo = "S_IRWXO"
fmt ModeFlag.s_iroth = "S_IROTH"
fmt ModeFlag.s_iwoth = "S_IWOTH"
fmt ModeFlag.s_ixoth = "S_IXOTH"
fmt ModeFlag.s_isuid = "S_ISUID"
fmt ModeFlag.s_isgid = "S_ISGID"
fmt ModeFlag.s_isvtx = "S_ISVTX"
