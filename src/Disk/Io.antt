-- ===== src/Disk/Io.antt =====
-- What src/disk/disk.c calls outside itself, over a state `E` of the card, the network, the heap
-- and the queue of the worker: the C library over FatFs, FreeRTOS, and the modules sd, net and tnfs.
use fdc_sds_pio.Prelude.{Bool, Bytes, Option, ℕ, ◌⊎◌}
use fdc_sds_pio.Esp.{Esp}

pub record Io (E : Type 0) : Type 0 where
  -- `fopen(path, "r+b")`: a stream, or NULL.
  pub fopen : Bytes → E → Option ℕ × E
  -- `fseek(fp, off, SEEK_SET) == 0`
  pub fseek_set : ℕ → ℕ → E → Bool × E
  -- `fseek(fp, 0, SEEK_END) == 0`
  pub fseek_end : ℕ → E → Bool × E
  -- `ftell(fp)`, `none` for a negative result.
  pub ftell : ℕ → E → Option ℕ
  -- `fread(buf, 1, n, fp)`: the bytes read, at most `n`.
  pub fread : ℕ → ℕ → E → Bytes × E
  -- `fwrite(buf, 1, n, fp)`: how many bytes were written.
  pub fwrite : ℕ → Bytes → E → ℕ × E
  -- `fflush(fp) == 0`, `fsync(fileno(fp)) == 0`
  pub fflush : ℕ → E → Bool × E
  pub fsync : ℕ → E → Bool × E
  pub fclose : ℕ → E → E
  -- `calloc`: the address of a new object, or NULL.
  pub calloc : E → Option ℕ × E
  -- `xQueueSend` to the worker within its wait.
  pub queue_send : E → Bool × E
  -- sd.c
  pub sd_mounted : E → Bool
  pub sd_canonical : Bytes → E → Option Bytes
  -- net.c
  pub net_is_connected : E → Bool
  -- tnfs.c: a session, or an error other than ESP_OK.
  pub tnfs_open : Bytes → Bool → Bool → E → (ℕ ⊎ Esp) × E
  pub tnfs_read_at : ℕ → ℕ → ℕ → E → Esp × Bytes × E
  pub tnfs_write_at : ℕ → ℕ → Bytes → E → Esp × E
  pub tnfs_size : ℕ → E → ℕ
  pub tnfs_close : ℕ → E → E
