-- ===== src/Logger.antt =====
-- common/logger.hpp: the levels of the logger.
pub mod Pipeline
pub mod Order
pub mod Alive
pub mod Drain
use new_happy_server.Base.{ℕ, List, if◌then◌else◌}
use new_happy_server.Base.Texts.{codes}
use new_happy_server.Strings.{iequal_string}

pub data LogLevel : Type 0 where
  error warn info debug max_level : LogLevel

-- Every other name is taken for "DEBUG".
unfoldable pub set_level : List ℕ → LogLevel
unfolding iequal_string
set_level s =
    if iequal_string s (codes "DEBUG")
    then debug
    else (if iequal_string s (codes "INFO")
        then info
        else (if iequal_string s (codes "WARN")
            then warn
            else (if iequal_string s (codes "ERROR") then error else debug)))
