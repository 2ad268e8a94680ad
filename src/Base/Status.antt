-- ===== src/Base/Status.antt =====
-- include/muc_opcua/status.h: the status codes that the modelled functions return.
use Prim.Native.Nat.{ℕ}

abbrev pub good : ℕ
good = 0x00000000

abbrev pub bad_internalerror : ℕ
bad_internalerror = 0x80020000

abbrev pub bad_encodingerror : ℕ
bad_encodingerror = 0x80060000

abbrev pub bad_decodingerror : ℕ
bad_decodingerror = 0x80070000

abbrev pub bad_encodinglimitsexceeded : ℕ
bad_encodinglimitsexceeded = 0x80080000

abbrev pub bad_securitychecksfailed : ℕ
bad_securitychecksfailed = 0x80130000

abbrev pub bad_responsetoolarge : ℕ
bad_responsetoolarge = 0x80b90000

abbrev pub bad_sessionidinvalid : ℕ
bad_sessionidinvalid = 0x80250000

abbrev pub bad_identitytokeninvalid : ℕ
bad_identitytokeninvalid = 0x80200000

abbrev pub bad_securechannelidinvalid : ℕ
bad_securechannelidinvalid = 0x80220000

abbrev pub bad_securitypolicyrejected : ℕ
bad_securitypolicyrejected = 0x80550000

abbrev pub bad_securitymoderejected : ℕ
bad_securitymoderejected = 0x80540000

abbrev pub bad_tcpmessagetypeinvalid : ℕ
bad_tcpmessagetypeinvalid = 0x807e0000

abbrev pub bad_tcpsecurechannelunknown : ℕ
bad_tcpsecurechannelunknown = 0x807f0000

abbrev pub bad_tcpmessagetoolarge : ℕ
bad_tcpmessagetoolarge = 0x80800000

abbrev pub bad_tcpnotenoughresources : ℕ
bad_tcpnotenoughresources = 0x80810000

abbrev pub bad_tcpinternalerror : ℕ
bad_tcpinternalerror = 0x80820000

abbrev pub bad_tcpendpointurlinvalid : ℕ
bad_tcpendpointurlinvalid = 0x80830000

abbrev pub bad_outofmemory : ℕ
bad_outofmemory = 0x80030000

abbrev pub bad_subscriptionidinvalid : ℕ
bad_subscriptionidinvalid = 0x80280000

abbrev pub bad_toomanysubscriptions : ℕ
bad_toomanysubscriptions = 0x80770000

abbrev pub bad_toomanypublishrequests : ℕ
bad_toomanypublishrequests = 0x80780000

abbrev pub bad_sequencenumberunknown : ℕ
bad_sequencenumberunknown = 0x807a0000

abbrev pub bad_messagenotavailable : ℕ
bad_messagenotavailable = 0x807b0000

abbrev pub bad_toomanymonitoreditems : ℕ
bad_toomanymonitoreditems = 0x80db0000

abbrev pub bad_monitoreditemidinvalid : ℕ
bad_monitoreditemidinvalid = 0x80420000

abbrev pub bad_toomanyoperations : ℕ
bad_toomanyoperations = 0x80100000

abbrev pub bad_nodeidunknown : ℕ
bad_nodeidunknown = 0x80340000

abbrev pub bad_notreadable : ℕ
bad_notreadable = 0x803a0000
