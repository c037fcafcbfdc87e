-- ===== src/Nio/Disk/Total.antt =====
-- The calls of sys/nio.c return: two stale responses are skipped at most.
use fujinet_msdos.Base.{
  ℕ, ◌≡◌, ◌≢◌, refl, Bool, true, false, Option, none, some, [], ◌∷◌, ◌++◌, Bytes, arith,
}
use fujinet_msdos.Base.Words.{put_u16le, put_u32le}
use fujinet_msdos.Nio.Codes.{device_disk, disk_version, cmd_info, cmd_read_sector, cmd_read_sectors}
use fujinet_msdos.Nio.Port.{Port, Response, Request, Reply, own, rx, Memory}
use fujinet_msdos.Nio.Transaction.{nio_transaction_call}
use fujinet_msdos.Nio.Transaction.Sound.{
  Answered, nio_transaction_call_sound, nio_transaction_call_failed,
}
use fujinet_msdos.Nio.Transaction.Stale.{nio_transaction_call-ne-none}
use fujinet_msdos.Nio.Disk.{
  Nio, Done, nio_call, done_of, nio_disk_info, nio_disk_read_sector, nio_disk_read_sectors,
  bound_pointers, max_tx_prefix, nio_request, timeout_slow, fuel, no_response, resp_16, max_rx,
}

-- What is known of a finished `nio_call`: a validated response where it returned true.
pub record Called {W : Type 0} (port : Port W) (q : Request) (reply : Reply) (n : Nio W)
    (d : Done W) : Type 0 where
  pub memory : Memory W
  pub done_is : d ≡ done_of n d.ok memory
  pub answered : d.ok ≡ true → Answered port q reply memory
  pub failed : d.ok ≡ false → memory.reply ≡ reply

module _ {W : Type 0} (port : Port W) where
  pub nio_call_returns :
      (device command : ℕ) (payload : Bytes) (reply : Reply) (capacity : ℕ) (response : Response)
      (n : Nio W)
      → (d : Done W) × (nio_call port device command payload reply capacity response n ≡ some d)
        × Called port (nio_request device command payload capacity) reply n d
  unfolding nio_call
  nio_call_returns device command payload reply capacity response n = go _ refl
    where
      start : Memory W
      start = record { line = n.line; reply = reply; response = response; diag = some n.diag }

      go :
          (r : Option (Bool × Memory W))
          → nio_transaction_call port bound_pointers max_tx_prefix
              (nio_request device command payload capacity)
              n.transport_retries
              n.network_timeout_ms
              timeout_slow
              fuel
              start
            ≡ r
          → (d : Done W) × (nio_call port device command payload reply capacity response n ≡ some d)
            × Called port (nio_request device command payload capacity) reply n d
      go none e = absurd (
          nio_transaction_call-ne-none port bound_pointers max_tx_prefix
            (nio_request device command payload capacity) n.transport_retries n.network_timeout_ms
            timeout_slow fuel start (omega arith) (omega arith) e)
      go (some (ok, m)) e = (
        done_of n ok m,
        rw (e, nio_call),
        record {
          memory = m;
          done_is = refl;
          answered = λ h. nio_transaction_call_sound port _ _ _ _ _ _ _ start (rw h at e);
          failed = λ h. nio_transaction_call_failed port _ _ _ _ _ _ _ start (rw h at e);
        },
      )

  -- The info request and both read requests of the disk service return, whatever the port does.
  pub nio_disk-ne-none :
      (slot lba count buffer_length bytes_read : ℕ) (buffer : Bytes) (n : Nio W)
      → (nio_disk_info port slot n ≢ none)
        × (nio_disk_read_sector port slot lba buffer buffer_length bytes_read n ≢ none)
        × (nio_disk_read_sectors port slot lba count buffer buffer_length bytes_read n ≢ none)
  unfolding nio_disk_info nio_disk_read_sector nio_disk_read_sectors
  nio_disk-ne-none slot lba count buffer_length bytes_read buffer n = (
    λ h. ground (
      arith,
      (nio_call_returns device_disk cmd_info (disk_version ∷ slot ∷ []) (own resp_16) 16 no_response
          n).1,
    ),
    λ h. ground (
      arith,
      (nio_call_returns device_disk cmd_read_sector
          (disk_version ∷ slot ∷ (put_u32le lba ++ put_u16le buffer_length)) rx max_rx no_response
          n).1,
    ),
    λ h. ground (
      arith,
      (nio_call_returns device_disk cmd_read_sectors
          (disk_version ∷ slot ∷ (put_u32le lba ++ put_u16le count ++ put_u16le buffer_length)) rx
          max_rx no_response n).1,
    ),
  )
