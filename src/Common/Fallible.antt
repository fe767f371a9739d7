-- ===== src/Common/Fallible.antt =====
-- `?` on results that read and write no storage.
use blockchain_protocol_v.Common.Errors.{Result, ok, err}

infixl 5 ◌>>=◌
abbrev pub ◌>>=◌ : {A B : Type 0} → Result A → (A → Result B) → Result B
ok a >>= f = f a
err e >>= f = err e
