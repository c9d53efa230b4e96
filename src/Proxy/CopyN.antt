-- ===== src/Proxy/CopyN.antt =====
-- myCopyN of proxy/common.go. A call of Write returns an error or takes the whole buffer, as io.Writer
-- documents, so that it is no short write without an error.
pub mod Copied
pub mod Delivered
use kafka_gcp_proxy.Base.{
  ℕ, zero, suc, ◌-◌, ℤ, pos, negsuc, Bool, true, false, List, Error, eof, ltb, if◌then◌else◌,
  length,
}
use kafka_gcp_proxy.Proxy.Wires.{Io, ◌>>=◌, ◌>>◌, pure, fail, Exit, looping, read, write}

-- The least of len(buf) and of what the LimitReader has left
abbrev pub read_size : ℕ → ℕ → ℕ
read_size buf left = if ltb buf left then buf else left

-- The loop, with `left` of `size` bytes to write: at 0 the LimitReader is at its end, and written == size.
-- The fuel counts the rounds.
unfoldable pub my_copy_n_loop : ℕ → ℕ → ℕ → Io (Unit {0})
my_copy_n_loop fuel buf zero = pure tt
my_copy_n_loop zero buf (suc left) = λ w. looping
my_copy_n_loop (suc fuel) buf (suc left) = do
  bytes ← read (read_size buf (suc left))
  write bytes
  my_copy_n_loop fuel buf (suc left - length bytes)

-- A round writes a byte at least, so `size` rounds do.
unfoldable pub my_copy_n : ℕ → ℤ → Io (Unit {0})
unfolding my_copy_n_loop
my_copy_n buf (pos size) = my_copy_n_loop size buf size
my_copy_n buf (negsuc n) = fail true eof
