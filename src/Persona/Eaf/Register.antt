-- ===== src/Persona/Eaf/Register.antt =====
-- host/src/zwoproxy/personas/eaf.py, `class Register`: the registers seen on the wire.
use zwo_eaf_proxy.Base.{ℕ}

abbrev pub read : ℕ
read = 0x02

abbrev pub state : ℕ
state = 0x03

abbrev pub identity : ℕ
identity = 0x04

abbrev pub serial : ℕ
serial = 0x0C

abbrev pub unknown_0d : ℕ
unknown_0d = 0x0D
