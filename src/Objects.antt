-- ===== src/Objects.antt =====
-- vm/tuple.cpp, vm/list.cpp, vm/ltuple.hpp, vm/closure.hpp: the containers of the machine's values.
pub mod Tuple
mod Tests
pub mod List
pub mod Closure
pub mod LTuple
