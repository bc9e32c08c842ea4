-- ===== src/Kv/Codes.antt =====
-- The constants of group1/kvstore/src/server/kvconstants.h: message types, states of the commit
-- protocol, error codes and the texts of the replies; and the message of kvmessage.h.
use sum.Prelude.{ℕ, Option, ℤ, pos, negsuc, ◌==◌, if◌then◌else◌}
use sum.Kv.Text.{Text}

abbrev pub max_keylen : ℕ
max_keylen = 1024

abbrev pub max_vallen : ℕ
max_vallen = 1024

pub data MsgType : Type 0 where
  getreq putreq delreq getresp resp ack abort commit vote_commit vote_abort register info : MsgType

pub data TpcState : Type 0 where
  tpc_init tpc_wait tpc_ready tpc_abort tpc_commit : TpcState

abbrev pub err_keylen : ℤ
err_keylen = negsuc 10

abbrev pub err_vallen : ℤ
err_vallen = negsuc 11

abbrev pub err_nokey : ℤ
err_nokey = negsuc 12

abbrev pub err_invldmsg : ℤ
err_invldmsg = negsuc 13

abbrev pub err_filaccess : ℤ
err_filaccess = negsuc 16

-- The texts of the replies, one constructor for each string constant.
pub data Reply : Type 0 where
  success no_key key_len val_len invalid_request not_implemented generic_error : Reply

-- GETMSG
abbrev pub get_msg : ℤ → Reply
get_msg (pos n) = generic_error
get_msg (negsuc n) =
    if n == 10
    then key_len
    else if n == 11
    then val_len
    else if n == 12
    then no_key
    else generic_error

-- `kvmessage_t`; a null pointer is `none`.
pub record Message : Type 0 where
  pub type : MsgType
  pub key : Option Text
  pub value : Option Text
  pub message : Option Reply
