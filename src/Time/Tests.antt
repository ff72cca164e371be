-- ===== src/Time/Tests.antt =====
-- The clock at five hundred seconds, and where it goes wrong.
use os_final_program.Base.{◌+◌, ◌*◌, ◌/◌, ◌%◌, ◌≡◌, refl, arith}
use os_final_program.Time.{seconds_of, get_time_string}
use os_final_program.Time.Clock.{Shows, get_time_string-Shows}

get_time_string-Shows_example :
    Shows (get_time_string 11 2755359744) ((11 * 4294967296 + 2755359744) / 100000000 % 86400)
get_time_string-Shows_example = get_time_string-Shows 11 2755359744 (omega arith) (omega arith)

-- At 2^40 ticks 10995 seconds have passed.
leap : seconds_of 256 0 ≡ 10995 + 45421
unfolding seconds_of
leap = refl
