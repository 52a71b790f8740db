-- ===== src/GpioIrq/Bound.antt =====
-- Which task an interrupt runs, in src/gpio_irq/gpio_irq.c.
