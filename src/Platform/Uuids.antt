-- ===== src/Platform/Uuids.antt =====
-- The canonical text of a UUID, as `str` gives it: 32 hexadecimal digits in five groups.
use verigence_security.Common.{
  ℕ, zero, suc, ◌+◌, ◌-◌, ◌/◌, ◌%◌, [], ◌∷◌, ◌++◌, Text, ltb, if◌then◌else◌,
}
use Prim.Native.Nat.{◌^◌}
use verigence_security.Core.Types.{Uuid}

abbrev pub hex_digit : ℕ → ℕ
hex_digit n = if ltb n 10 then b'0' + n else b'a' + (n - 10)

-- The last `k` hexadecimal digits of `n`.
unfoldable pub hex_run : ℕ → ℕ → Text
hex_run zero n = []
hex_run (suc k) n = hex_digit (n / 16 ^ k % 16) ∷ hex_run k n

unfoldable pub uuid_text : Uuid → Text
unfolding hex_run
uuid_text n =
    hex_run 8 (n / 16 ^ 24)
    ++ (b'-'
        ∷ (hex_run 4 (n / 16 ^ 20)
            ++ (b'-'
                ∷ (hex_run 4 (n / 16 ^ 16)
                    ++ (b'-' ∷ (hex_run 4 (n / 16 ^ 12) ++ (b'-' ∷ hex_run 12 n)))))))
