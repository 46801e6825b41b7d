-- ===== src/Pipeline/Minimum.antt =====
-- What an order is where the minimum tier is A+.
use automatamain.Base.Float.{Float}
