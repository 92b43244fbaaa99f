-- ===== src/Family/Target.antt =====
-- The child that 'p' of Lab3/lab3.c names: it is sent a ban and then an allowance, and what it is
-- left with depends on the order in which it takes them.
use osisp_labs.Common.{List}
