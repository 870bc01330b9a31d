-- ===== src/World/Layers.antt =====
-- `Layer`, the layers of the layer shell.
pub data Layer : Type 0 where
  background bottom top overlay : Layer
