-- ===== src/Kernels.antt =====
-- src/cacheflow/cuda: the kernels, by the elements of the arrays that their threads touch.
--
-- An array is a function from the index to the element, and an element is any type. A thread of a
-- kernel that moves data is the list of its assignments, and a launch is the list of those of all
-- threads of the grid. The device runs them in any order: a run is a permutation of that list.
-- Indices are natural numbers: a negative id or slot, and an `int` that overflows, are outside of
-- the arrays.
pub mod Moves
pub mod Grid
pub mod Owner
pub mod Reshape
pub mod Blocks
