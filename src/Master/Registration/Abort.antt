-- ===== src/Master/Registration/Abort.antt =====
-- What an aborted registration leaves behind.
use chained_block_storage.Base.{◌≡◌, true, List, arith}
use chained_block_storage.Protocol.{Status}
use chained_block_storage.Master.Nodes.{Master}
use chained_block_storage.Master.Registration.{RegisterRequest, aborted, waits, register}

aborted_locked :
    (m : Master) (request : RegisterRequest) (beats modes : List Status) (m' : Master)
    → register m request beats modes ≡ aborted m'
    → m'.reg_locked ≡ true
unfolding register
aborted_locked m request beats modes m' h = ground arith

-- An aborted registration keeps `reg_mtx`: every registration after it waits for ever.
pub register_after_abort :
    (m : Master) (request : RegisterRequest) (beats modes : List Status) (m' : Master)
    → register m request beats modes ≡ aborted m'
    → (other : RegisterRequest) (beats' modes' : List Status)
    → register m' other beats' modes' ≡ waits
unfolding register
register_after_abort m request beats modes m' h other beats' modes' =
    rw (aborted_locked m request beats modes m' h)
