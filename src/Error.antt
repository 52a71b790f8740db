-- ===== src/Error.antt =====
-- src/error/include/pr/error.h: the values of `pr_error_t`.
use picore.Base.{Bool, true, false}

-- `ok` is `PR_OK` (0); each other constructor is the negative code `PR_ERR_…` of its name.
pub data Error : Type 0 where
  ok unknown memory io address timeout inval busy impl : Error

-- `!err`
abbrev pub is_ok : Error → Bool
is_ok ok = true
is_ok unknown = false
is_ok memory = false
is_ok io = false
is_ok address = false
is_ok timeout = false
is_ok inval = false
is_ok busy = false
is_ok impl = false
